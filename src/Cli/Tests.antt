-- ===== src/Cli/Tests.antt =====
-- Commands with the address in between, one of them run against a broker with a topic of two records.

use tumbleweed.Base.{
  ℕ, ◌≡◌, ◌⊎◌, refl, if◌then◌else◌, none, some, List, [], ◌∷◌, ◌++◌, All, Error, ok, err, io,
  broker_error, arith,
}
use tumbleweed.Bytes.{put_uint}
use tumbleweed.Wal.Samples.{sum32, first, second}
use tumbleweed.Wal.Log.{Logs}
use tumbleweed.Broker.Samples.{a_world, orders, quiet_topic, broker_with, quiet-Writable}
use tumbleweed.Broker.Names.{Name, find, same_name}
use tumbleweed.Broker.Topics.{Topic}
use tumbleweed.Broker.Produce.Laws.{entry_of}
use tumbleweed.Server.{err_code_internal_error}
use tumbleweed.Client.{Client}
use tumbleweed.Client.Served.{answers}
use tumbleweed.Client.States.{after}
use tumbleweed.Client.EndToEnd.{operations}
use tumbleweed.Client.Address.{localhost, normalize_addr, connect}
use tumbleweed.Cli.{addr_flag, is_addr, is_addr_value, rearrange_args}
use tumbleweed.Cli.Arranged.{Arranges, rearrange_args-Arranges}
use tumbleweed.Cli.Laws.{IsOther}
use tumbleweed.Cli.Decimal.{add_digit, parse_digits, parse_uint}
use tumbleweed.Cli.Flags.{shape, parse_flags}
use tumbleweed.Cli.Commands.{
  Run, Calls, Environment, failed, produced, flag_error, flag_help, produce_word, fetch_word,
  connected, main,
}
use tumbleweed.Cli.Address.{main-addr}
use tumbleweed.Cli.EndToEnd.{client_calls, dash_key, main-produces}

abbrev args : List Name
args = (102 ∷ []) ∷ addr_flag ∷ (58 ∷ 57 ∷ []) ∷ (116 ∷ []) ∷ []

rearrange_args-Arranges_example : Arranges args (rearrange_args args)
rearrange_args-Arranges_example = rearrange_args-Arranges args

-- the numbers on both sides of the limit
largest :
    parse_uint (
      49 ∷ 56 ∷ 52 ∷ 52 ∷ 54 ∷ 55 ∷ 52 ∷ 52 ∷ 48 ∷ 55 ∷ 51 ∷ 55 ∷ 48 ∷ 57 ∷ 53 ∷ 53 ∷ 49 ∷ 54 ∷ 49
      ∷ 53 ∷ [])
    ≡ some 18_446_744_073_709_551_615
unfolding parse_uint parse_digits add_digit
largest = refl

too_large :
    parse_uint (
      49 ∷ 56 ∷ 52 ∷ 52 ∷ 54 ∷ 55 ∷ 52 ∷ 52 ∷ 48 ∷ 55 ∷ 51 ∷ 55 ∷ 48 ∷ 57 ∷ 53 ∷ 53 ∷ 49 ∷ 54 ∷ 49
      ∷ 54 ∷ [])
    ≡ none
unfolding parse_uint parse_digits add_digit
too_large = refl

abbrev no_text : Error → List ℕ
no_text e = 33 ∷ []

abbrev a_client : Client
a_client = record { req_id = 11; out = record { sent = []; room = 1000 }; incoming = [] }

abbrev served : Calls Client
served =
    client_calls (answers no_text (operations a_world) (63 ∷ []) 0 1000 (broker_with quiet_topic))
      a_client

-- That broker is at "localhost:9".
abbrev a_place : Name
a_place = 58 ∷ 57 ∷ []

abbrev an_environment : Environment Client
an_environment = record {
  dial = λ addr. if same_name addr (localhost ++ a_place) then ok served else err io;
  parse_int = parse_uint;
  consumer = 99 ∷ [];
}

abbrev before : List Name
before = produce_word ∷ dash_key ∷ [] ∷ orders ∷ []

before-IsOther : All IsOther before
unfolding is_addr is_addr_value same_name
before-IsOther = ((refl, refl), ((refl, refl), ((refl, refl), ((refl, refl), tt))))

message-IsOther : All IsOther ((8 ∷ []) ∷ [])
unfolding is_addr is_addr_value same_name
message-IsOther = ((refl, refl), tt)

main-addr_example :
    main an_environment
      (produce_word ∷ dash_key ∷ [] ∷ orders ∷ addr_flag ∷ a_place ∷ (8 ∷ []) ∷ [])
    ≡ connected an_environment produce_word
        (dash_key ∷ [] ∷ orders ∷ (8 ∷ []) ∷ [])
        (connect an_environment.dial a_place)
unfolding is_addr shape same_name
main-addr_example =
    main-addr an_environment addr_flag a_place produce_word before ((8 ∷ []) ∷ [])
      (dash_key ∷ [] ∷ orders ∷ (8 ∷ []) ∷ []) refl before-IsOther message-IsOther refl refl

abbrev the_run : Run Client
the_run =
    main an_environment
      (produce_word ∷ dash_key ∷ [] ∷ orders ∷ addr_flag ∷ a_place ∷ (8 ∷ []) ∷ [])

main-produces_example :
    (d : Client) × (t' : Topic) × (the_run.0 ≡ some d)
    × (find orders
          (after no_text
            (operations a_world)
            (63 ∷ [])
            0
            1000
            (broker_with quiet_topic)
            d.out.sent).topics
        ≡ some t')
    × (((the_run.1 ≡ produced 2)
          × Logs sum32 t'.wal 0 (first ∷ second ∷ entry_of a_world [] (8 ∷ []) ∷ []))
        ⊎ ((the_run.1 ≡ failed (broker_error err_code_internal_error (33 ∷ [])))
            × (Logs sum32 t'.wal 0 (first ∷ second ∷ [])
                ⊎ Logs sum32 t'.wal 0 (first ∷ second ∷ entry_of a_world [] (8 ∷ []) ∷ []))))
unfolding put_uint is_addr shape same_name normalize_addr
main-produces_example =
    main-produces a_world (broker_with quiet_topic) orders [] (8 ∷ []) quiet_topic
      (first ∷ second ∷ []) quiet-Writable tt no_text (63 ∷ []) 0 1000 a_client an_environment
      addr_flag a_place before ((8 ∷ []) ∷ []) [] refl before-IsOther message-IsOther refl refl refl
      (record { topic_fits = omega arith; key_fits = omega arith; value_fits = omega arith })
      (record {
        fresh = refl;
        unread = refl;
        type_fits = omega arith;
        body_fits = omega arith;
        space = omega arith;
      })
      (omega arith) (omega arith) (omega arith) (omega arith)

-- "-max" without a number, and "-h"
not_a_number :
    (calls : Calls Client)
    → connected an_environment fetch_word ((45 ∷ 109 ∷ 97 ∷ 120 ∷ []) ∷ (120 ∷ []) ∷ []) (ok calls)
      ≡ (none, flag_error)
unfolding parse_flags shape same_name parse_uint parse_digits add_digit
not_a_number calls = refl

asks_for_help :
    (calls : Calls Client)
    → connected an_environment fetch_word ((45 ∷ 104 ∷ []) ∷ []) (ok calls) ≡ (none, flag_help)
unfolding parse_flags shape same_name
asks_for_help calls = refl
