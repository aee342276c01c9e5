-- ===== src/Cli/Commands.antt =====
-- cmd/tumbleweed-cli/main.go: the commands. What is printed is kept as the values in it. The calls of the
-- client are a record; package Client fills it in Cli/EndToEnd.
use tumbleweed.Base.{
  ℕ, Bool, ◌%◌, ◌^◌, Option, none, some, List, [], ◌∷◌, ◌||◌, if◌then◌else◌, Error, Result, ok, err,
}
use tumbleweed.Protocol.FetchRequest.{FetchRequest}
use tumbleweed.Protocol.FetchResponse.{Message}
use tumbleweed.Broker.Names.{Name, same_name}
use tumbleweed.Client.Address.{connect}
use tumbleweed.Cli.{rearrange_args}
use tumbleweed.Cli.Decimal.{parse_uint}
use tumbleweed.Cli.Flags.{Parsed, parsed, helped, refused, parse_flags}

-- the calls of a connected client, each with the client that it leaves
pub record Calls (C : Type 0) : Type 0 where
  pub ping : C × Result (Unit {0})
  pub create_topic : Name → C × Result (Unit {0})
  pub produce : Name → List ℕ → List ℕ → C × Result ℕ
  pub fetch : FetchRequest → C × Result (List Message)
  pub ack : Name → Name → ℕ → C × Result (Unit {0})
  pub nack : Name → Name → ℕ → C × Result (Unit {0})
  pub list_topics : C × Result (List Name)

-- What a run finds around it: the client that `net.Dial` connects to an address, `strconv.ParseInt(s, 0, 64)` as a 64-bit
-- pattern, and the consumer that it makes up.
pub record Environment (C : Type 0) : Type 0 where
  pub dial : Name → Result (Calls C)
  pub parse_int : Name → Option ℕ
  pub consumer : Name

-- How a run ends. `misused` prints the usage of a command.
pub data Outcome : Type 0 where
  usage flag_help flag_error not_connected misused bad_offset unknown_command : Outcome
  failed : Error → Outcome
  pinged : Outcome
  created : Name → Outcome
  produced : ℕ → Outcome
  fetched : Name → List Message → Outcome
  acked nacked : Name → Name → ℕ → Outcome
  listed : List Name → Outcome

-- `os.Exit`, and 0 at the end of main
abbrev pub exit_code : Outcome → ℕ
exit_code flag_error = 2
exit_code not_connected = 1
exit_code misused = 1
exit_code bad_offset = 1
exit_code unknown_command = 1
exit_code (failed e) = 1
exit_code _ = 0

-- a string flag with this name, where it is the only one
abbrev pub string_flag : Name → Name → Option (Name → Name → Option Name)
string_flag flag name = if same_name name flag then some (λ x _. some x) else none

-- "key"
abbrev pub key_flag : Name
key_flag = 107 ∷ 101 ∷ 121 ∷ []

-- The variables of the flags of fetch; an int is its 64-bit pattern.
pub record FetchFlags : Type 0 where
  pub consumer : Name
  pub max : ℕ
  pub ack_timeout : ℕ
  pub poll_timeout : ℕ

abbrev pub default_fetch_flags : FetchFlags
default_fetch_flags = record { consumer = []; max = 1; ack_timeout = 30000; poll_timeout = 0 }

abbrev set_int :
    (Name → Option ℕ) → (ℕ → FetchFlags → FetchFlags) → Name → FetchFlags → Option FetchFlags
set_int parse_int set x v = elim (parse_int x) [ none ↦ none | some n ↦ some (set n v) ]

-- "consumer", "max", "ack-timeout" and "poll-timeout"
abbrev pub fetch_flags : (Name → Option ℕ) → Name → Option (Name → FetchFlags → Option FetchFlags)
fetch_flags parse_int name =
    if same_name name (99 ∷ 111 ∷ 110 ∷ 115 ∷ 117 ∷ 109 ∷ 101 ∷ 114 ∷ [])
    then some (λ x v. some (record v { consumer = x }))
    else if same_name name (109 ∷ 97 ∷ 120 ∷ [])
    then some (set_int parse_int (λ n v. record v { max = n }))
    else if same_name name (97 ∷ 99 ∷ 107 ∷ 45 ∷ 116 ∷ 105 ∷ 109 ∷ 101 ∷ 111 ∷ 117 ∷ 116 ∷ [])
    then some (set_int parse_int (λ n v. record v { ack_timeout = n }))
    else if same_name name
        (112 ∷ 111 ∷ 108 ∷ 108 ∷ 45 ∷ 116 ∷ 105 ∷ 109 ∷ 101 ∷ 111 ∷ 117 ∷ 116 ∷ [])
    then some (set_int parse_int (λ n v. record v { poll_timeout = n }))
    else none

abbrev chosen_consumer : Name → Name → Name
chosen_consumer made_up [] = made_up
chosen_consumer made_up (c ∷ s) = c ∷ s

-- "ping", "create-topic", "produce", "fetch", "ack", "nack", and "list-topics", "list" or "topics"
abbrev pub ping_word : Name
ping_word = 112 ∷ 105 ∷ 110 ∷ 103 ∷ []

abbrev pub create_topic_word : Name
create_topic_word = 99 ∷ 114 ∷ 101 ∷ 97 ∷ 116 ∷ 101 ∷ 45 ∷ 116 ∷ 111 ∷ 112 ∷ 105 ∷ 99 ∷ []

abbrev pub produce_word : Name
produce_word = 112 ∷ 114 ∷ 111 ∷ 100 ∷ 117 ∷ 99 ∷ 101 ∷ []

abbrev pub fetch_word : Name
fetch_word = 102 ∷ 101 ∷ 116 ∷ 99 ∷ 104 ∷ []

abbrev pub ack_word : Name
ack_word = 97 ∷ 99 ∷ 107 ∷ []

abbrev pub nack_word : Name
nack_word = 110 ∷ 97 ∷ 99 ∷ 107 ∷ []

abbrev pub is_list_word : Name → Bool
is_list_word cmd =
    same_name cmd (108 ∷ 105 ∷ 115 ∷ 116 ∷ 45 ∷ 116 ∷ 111 ∷ 112 ∷ 105 ∷ 99 ∷ 115 ∷ [])
    || same_name cmd (108 ∷ 105 ∷ 115 ∷ 116 ∷ [])
    || same_name cmd (116 ∷ 111 ∷ 112 ∷ 105 ∷ 99 ∷ 115 ∷ [])

-- ":8765" and "addr"
abbrev pub default_addr : Name
default_addr = 58 ∷ 56 ∷ 55 ∷ 54 ∷ 53 ∷ []

abbrev pub addr_name : Name
addr_name = 97 ∷ 100 ∷ 100 ∷ 114 ∷ []

-- What a run leaves: the client behind its call, if it made one, and how it ends.
abbrev pub Run : Type 0 → Type 0
Run C = Option C × Outcome

module _ {C : Type 0} where
  -- `if err != nil { …; os.Exit(1) }`
  abbrev pub ended : {A : Type 0} → (A → Outcome) → C × Result A → Run C
  ended done (c, err e) = (some c, failed e)
  ended done (c, ok a) = (some c, done a)

  abbrev pub after_flags : {V : Type 0} → (V → List Name → Run C) → Parsed V → Run C
  after_flags next (parsed v args) = next v args
  after_flags next helped = (none, flag_help)
  after_flags next refused = (none, flag_error)

  abbrev pub run_create_topic : Calls C → List Name → Run C
  run_create_topic calls [] = (none, misused)
  run_create_topic calls (topic ∷ _) = ended (λ _. created topic) (calls.create_topic topic)

  abbrev pub produce_message : Calls C → Name → List Name → Run C
  produce_message calls key (topic ∷ msg ∷ _) = ended produced (calls.produce topic key msg)
  produce_message calls key _ = (none, misused)

  abbrev pub run_produce : Calls C → List Name → Run C
  run_produce calls args =
      after_flags (produce_message calls) (parse_flags (string_flag key_flag) [] args)

  abbrev pub fetch_messages : Environment C → Calls C → FetchFlags → List Name → Run C
  fetch_messages env calls flags (topic ∷ group ∷ _) =
      let consumer_id = chosen_consumer env.consumer flags.consumer in
      ended (fetched consumer_id) (
        calls.fetch (record {
          topic = topic;
          group = group;
          consumer_id = consumer_id;
          max_messages = flags.max % 2 ^ 32;
          ack_timeout_ms = flags.ack_timeout % 2 ^ 32;
          long_poll_timeout_ms = flags.poll_timeout % 2 ^ 32;
        }))
  fetch_messages env calls flags _ = (none, misused)

  abbrev pub run_fetch : Environment C → Calls C → List Name → Run C
  run_fetch env calls args =
      after_flags (fetch_messages env calls)
        (parse_flags (fetch_flags env.parse_int) default_fetch_flags args)

  -- ack and nack: a topic, a group and an offset
  abbrev pub with_offset : (Name → Name → ℕ → Run C) → List Name → Run C
  with_offset call (topic ∷ group ∷ offset ∷ _) = elim (parse_uint offset) [
    | none ↦ (none, bad_offset)
    | some n ↦ call topic group n
  ]
  with_offset call _ = (none, misused)

  abbrev pub run_ack : Calls C → List Name → Run C
  run_ack calls = with_offset (λ t g n. ended (λ _. acked t g n) (calls.ack t g n))

  abbrev pub run_nack : Calls C → List Name → Run C
  run_nack calls = with_offset (λ t g n. ended (λ _. nacked t g n) (calls.nack t g n))

  -- the switch over the command
  abbrev pub run_command : Environment C → Calls C → Name → List Name → Run C
  run_command env calls cmd args =
      if same_name cmd ping_word
      then ended (λ _. pinged) calls.ping
      else if same_name cmd create_topic_word
      then run_create_topic calls args
      else if same_name cmd produce_word
      then run_produce calls args
      else if same_name cmd fetch_word
      then run_fetch env calls args
      else if same_name cmd ack_word
      then run_ack calls args
      else if same_name cmd nack_word
      then run_nack calls args
      else if is_list_word cmd
      then ended listed calls.list_topics
      else (none, unknown_command)

  abbrev pub connected : Environment C → Name → List Name → Result (Calls C) → Run C
  connected env cmd args (err e) = (none, not_connected)
  connected env cmd args (ok calls) = run_command env calls cmd args

  -- behind the global flags; the variable is the address
  abbrev pub with_address : Environment C → Name → List Name → Run C
  with_address env addr [] = (none, usage)
  with_address env addr (cmd ∷ args) = connected env cmd args (connect env.dial addr)

  abbrev pub run_rearranged : Environment C → List Name → Run C
  run_rearranged env [] = (none, usage)
  run_rearranged env (a ∷ args) =
      after_flags (with_address env) (parse_flags (string_flag addr_name) default_addr (a ∷ args))

  unfoldable pub main : Environment C → List Name → Run C
  main env args = run_rearranged env (rearrange_args args)
