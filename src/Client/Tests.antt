-- ===== src/Client/Tests.antt =====
-- The calls of a client at a broker that counts them.
use tumbleweed.Base.{
  ℕ, ◌+◌, ◌≡◌, ap, ◌++◌, false, ◌⊎◌, some, refl, List, [], ◌∷◌, Error, Result, ok, err,
  lease_not_found, broker_error, arith,
}
use tumbleweed.Bytes.{put_uint}
use tumbleweed.Wal.Samples.{sum32, first, second}
use tumbleweed.Wal.Log.{Logs}
use tumbleweed.Broker.Samples.{a_world, orders, quiet_topic, broker_with, quiet-Writable}
use tumbleweed.Broker.Names.{Name, find}
use tumbleweed.Broker.Topics.{Topic, BrokerState}
use tumbleweed.Broker.Produce.Laws.{entry_of}
use tumbleweed.Protocol.FetchRequest.{FetchRequest}
use tumbleweed.Protocol.FetchResponse.{Message}
use tumbleweed.Server.{Broker, err_code_internal_error}
use tumbleweed.Client.{Client, produce, fetch, ack, nack}
use tumbleweed.Client.Address.{
  contains, split_last_colon, has_port, localhost, default_port, normalize_addr, IsSettled,
  normalize_addr-IsSettled,
}
use tumbleweed.Client.Served.{answers}
use tumbleweed.Client.EndToEnd.{called, broker_after, produce-end_to_end}
use tumbleweed.Client.Calls.{fetch-relayed, ack-relayed, nack-relayed}

abbrev a_message : Message
a_message = record { offset = 5; timestamp = 100; key = []; value = 7 ∷ [] }

abbrev counting : Broker ℕ
counting = record {
  produce = λ s topic key value. (s + 1, ok s);
  fetch = λ s r. (s + 1, ok (a_message ∷ []));
  ack = λ s topic group offset. (s + 1, ok tt);
  nack = λ s topic group offset. (s + 1, err lease_not_found);
  create_topic = λ s topic. (s + 1, ok tt);
  list_topics = λ s. [];
}

abbrev no_text : Error → List ℕ
no_text e = 33 ∷ []

abbrev peer : List ℕ → List ℕ
peer = answers no_text counting (63 ∷ []) 0 1000 5

abbrev a_client : Client
a_client = record { req_id = 11; out = record { sent = []; room = 1000 }; incoming = [] }

abbrev a_request : FetchRequest
a_request = record {
  topic = 97 ∷ [];
  group = 103 ∷ [];
  consumer_id = 99 ∷ [];
  max_messages = 1;
  ack_timeout_ms = 30;
  long_poll_timeout_ms = 0;
}

ack-relayed_example : (ack peer a_client (97 ∷ []) (103 ∷ []) 3).1 ≡ ok tt
unfolding put_uint
ack-relayed_example =
    ack-relayed no_text counting (63 ∷ []) 0 1000 5 a_client (97 ∷ []) (103 ∷ []) 3
      (record { topic_fits = omega arith; group_fits = omega arith; offset_fits = omega arith })
      (record {
        fresh = refl;
        unread = refl;
        type_fits = omega arith;
        body_fits = omega arith;
        space = omega arith;
      })
      (tt, omega arith, omega arith)

fetch-relayed_example : (fetch peer a_client a_request).1 ≡ ok (a_message ∷ [])
unfolding put_uint
fetch-relayed_example =
    fetch-relayed no_text counting (63 ∷ []) 0 1000 5 a_client a_request
      (record {
        topic_fits = omega arith;
        group_fits = omega arith;
        consumer_id_fits = omega arith;
        max_messages_fits = omega arith;
        ack_timeout_ms_fits = omega arith;
        long_poll_timeout_ms_fits = omega arith;
      })
      (record {
        fresh = refl;
        unread = refl;
        type_fits = omega arith;
        body_fits = omega arith;
        space = omega arith;
      })
      (
        record {
          count_fits = omega arith;
          all_fit = (
            record {
              offset_fits = omega arith;
              timestamp_fits = omega arith;
              key_fits = omega arith;
              value_fits = omega arith;
            },
            tt,
          );
        },
        omega arith,
        omega arith,
      )

-- the client of a broker whose topic has two records
abbrev a_call : Client × Result ℕ
a_call =
    called a_world (broker_with quiet_topic) orders [] (8 ∷ []) quiet_topic (first ∷ second ∷ [])
      quiet-Writable tt no_text (63 ∷ []) 0 1000 a_client

abbrev broker_then : BrokerState
broker_then =
    broker_after a_world (broker_with quiet_topic) orders [] (8 ∷ []) quiet_topic
      (first ∷ second ∷ []) quiet-Writable tt no_text (63 ∷ []) 0 1000 a_client a_call.0

produce-end_to_end_example :
    (t' : Topic) × (find orders broker_then.topics ≡ some t')
    × (((a_call.1 ≡ ok 2)
          × Logs sum32 t'.wal 0 (first ∷ second ∷ entry_of a_world [] (8 ∷ []) ∷ []))
        ⊎ ((a_call.1 ≡ err (broker_error err_code_internal_error (33 ∷ [])))
            × (Logs sum32 t'.wal 0 (first ∷ second ∷ [])
                ⊎ Logs sum32 t'.wal 0 (first ∷ second ∷ entry_of a_world [] (8 ∷ []) ∷ []))))
unfolding put_uint
produce-end_to_end_example =
    produce-end_to_end a_world (broker_with quiet_topic) orders [] (8 ∷ []) quiet_topic
      (first ∷ second ∷ []) quiet-Writable tt no_text (63 ∷ []) 0 1000 a_client
      (record { topic_fits = omega arith; key_fits = omega arith; value_fits = omega arith })
      (record {
        fresh = refl;
        unread = refl;
        type_fits = omega arith;
        body_fits = omega arith;
        space = omega arith;
      })
      (omega arith) (omega arith) (omega arith) (omega arith)

abbrev first_byte : ℕ → Name → ℕ
first_byte n [] = n
first_byte n (c ∷ s) = c

-- "broker", ":9" and "fe80::1"
abbrev broker_host : Name
broker_host = 98 ∷ 114 ∷ 111 ∷ 107 ∷ 101 ∷ 114 ∷ []

with_port : normalize_addr broker_host default_port ≡ broker_host ++ default_port
unfolding normalize_addr has_port split_last_colon contains
with_port = refl

with_host : normalize_addr (58 ∷ 57 ∷ []) default_port ≡ localhost ++ (58 ∷ 57 ∷ [])
unfolding normalize_addr
with_host = refl

abbrev local_address : Name
local_address = 102 ∷ 101 ∷ 56 ∷ 48 ∷ 58 ∷ 58 ∷ 49 ∷ []

with_brackets :
    normalize_addr local_address default_port ≡ 91 ∷ (local_address ++ (93 ∷ default_port))
unfolding normalize_addr has_port split_last_colon contains
with_brackets = refl

-- "::1" becomes "localhost::1", which SplitHostPort does not split.
loopback : has_port (normalize_addr (58 ∷ 58 ∷ 49 ∷ []) default_port) ≡ false
unfolding normalize_addr has_port split_last_colon contains
loopback = refl

normalize_addr-IsSettled_example :
    IsSettled default_port (normalize_addr local_address default_port)
unfolding contains
normalize_addr-IsSettled_example =
    normalize_addr-IsSettled (56 ∷ 55 ∷ 54 ∷ 53 ∷ [])
      (record { no_colon = refl; no_bracket = refl }) local_address
      (record {
        no_bracket = refl;
        first_colon =
            λ s e. absurd (let same : 102 ≡ 58 = ap (first_byte 0) e in omega (arith, same));
      })

nack-relayed_example :
    (nack peer a_client (97 ∷ []) (103 ∷ []) 3).1 ≡ err (broker_error 1005 (33 ∷ []))
unfolding put_uint
nack-relayed_example =
    nack-relayed no_text counting (63 ∷ []) 0 1000 5 a_client (97 ∷ []) (103 ∷ []) 3
      (record { topic_fits = omega arith; group_fits = omega arith; offset_fits = omega arith })
      (record {
        fresh = refl;
        unread = refl;
        type_fits = omega arith;
        body_fits = omega arith;
        space = omega arith;
      })
      (omega arith, omega arith, omega arith, refl)
