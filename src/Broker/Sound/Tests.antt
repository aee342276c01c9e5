-- ===== src/Broker/Sound/Tests.antt =====
-- The broker between calls, on a broker without topics and on the files of one.
use tumbleweed.Base.{
  Result, All, ℕ, ◌+◌, ◌^◌, ◌<◌, ◌≡◌, refl, some, List, [], ◌∷◌, ◌++◌, true, false, inl, ok, arith,
}
use tumbleweed.Protocol.FetchRequest.{FetchRequest}
use tumbleweed.Wal.Samples.{sum32, sum32_fits, first, second, first_fits}
use tumbleweed.Wal.SegmentFile.{Segment}
use tumbleweed.Wal.SegmentFile.Holds.{records, log_size}
use tumbleweed.Wal.{append, open_segment}
use tumbleweed.Wal.Log.Grown.{Grown, append-Grown}
use tumbleweed.Wal.Recovery.{new_wal, open_all, sort_bases, recover_next_offset}
use tumbleweed.Wal.Recovery.Steps.{healthy}
use tumbleweed.Wal.Recovery.Reopened.{FileHolds}
use tumbleweed.Broker.Names.{find}
use tumbleweed.Broker.Group.{persist_state}
use tumbleweed.Broker.Sort.{sort_offsets, sort_loop}
use tumbleweed.Broker.Fetch.{expired_offsets}
use tumbleweed.Broker.Topics.{
  GroupFile, Topic, BrokerState, World, default_config, load_groups, load_topics, open_topic,
  create_topic, new_broker,
}
use tumbleweed.Broker.Samples.{a_world, a_log, a_log-Logs, orders}
use tumbleweed.Broker.Sound.{SoundTopic, SoundBroker}
use tumbleweed.Broker.Sound.Stored.{Stored, StoredRun, run-SoundBroker_from_disk}
use tumbleweed.Broker.Sound.Opens.{Behind, open_topic-SoundTopic}
use tumbleweed.Broker.Sound.Runs.{
  Request, producing, fetching, acking, run, serve, cost, cost_of_run,
}

append-Grown_example :
    Grown a_log 2000 (append sum32 a_world.disk first.timestamp a_log first.key first.value).0
append-Grown_example =
    append-Grown sum32 a_world.disk a_log 0 2000 (first ∷ second ∷ []) first a_log-Logs
      (omega arith) (omega arith) (omega arith) (omega arith)

-- a disk without files
a_world-Stored : (n : ℕ) → n < 2 ^ 60 → Stored n a_world
unfolding log_size
a_world-Stored n few = record {
  crc_fits = sum32_fits;
  clock = omega arith;
  whole = refl;
  some_limit = omega arith;
  limit = omega arith;
  topics = λ name. record {
    entries = [];
    dir = inl (refl, refl);
    offsets = omega (arith, few);
    size = omega arith;
    states = λ files e. none_behind files e;
  };
}
  where
    none_behind :
        (files : List GroupFile)
        → ◌≡◌ {A = Result (List GroupFile)} (ok []) (ok files)
        → All (Behind 0) files
    none_behind [] e = tt
    none_behind (f ∷ files) e = absurd (cc)

abbrev no_topics : BrokerState
no_topics = record { topics = []; sent = [] }

abbrev a_request : FetchRequest
a_request = record {
  topic = orders;
  group = 99 ∷ [];
  consumer_id = 49 ∷ [];
  max_messages = 1;
  ack_timeout_ms = 5;
  long_poll_timeout_ms = 0;
}

-- a consumer that asks too early, a producer, and the consumer that acknowledges what it did not get
abbrev some_calls : List (World × Request)
some_calls =
    (a_world, fetching a_request 3)
    ∷ (a_world, producing orders [] (8 ∷ []))
    ∷ (a_world, acking orders (99 ∷ []) 0)
    ∷ []

nothing_found : new_broker a_world (ok []) ≡ ok no_topics
unfolding new_broker load_topics
nothing_found = refl

some_cost : cost_of_run some_calls no_topics ≡ 1
unfolding cost cost_of_run create_topic find new_wal open_all sort_bases recover_next_offset
    open_segment load_groups sort_offsets sort_loop expired_offsets persist_state
some_cost = refl

later_calls-StoredRun :
    StoredRun sum32 5
      ((a_world, producing orders [] (8 ∷ [])) ∷ (a_world, acking orders (99 ∷ []) 0) ∷ [])
      (serve a_world (fetching a_request 3) no_topics)
unfolding cost cost_of_run
later_calls-StoredRun = (
  refl,
  (omega arith, omega arith),
  a_world-Stored 6 (omega arith),
  (refl, tt, a_world-Stored 5 (omega arith), tt),
)

some_calls-StoredRun : StoredRun sum32 5 some_calls no_topics
some_calls-StoredRun = (
  refl,
  omega arith,
  a_world-Stored (cost_of_run some_calls no_topics + 5) (omega (arith, some_cost)),
  later_calls-StoredRun,
)

run-SoundBroker_from_disk_example : SoundBroker sum32 5 (run some_calls no_topics)
run-SoundBroker_from_disk_example =
    run-SoundBroker_from_disk 5 a_world (ok []) no_topics some_calls
      (a_world-Stored (cost_of_run some_calls no_topics + 5) (omega (arith, some_cost)))
      nothing_found some_calls-StoredRun

-- a topic with one record and a torn tail, and a group's state file
abbrev crashed_segment : Segment
crashed_segment = record {
  base_offset = 0;
  log = records sum32 0 (first ∷ []) ++ (66 ∷ 0 ∷ []);
  index = 9 ∷ [];
  size = 0;
  idx_size = 0;
}

crashed_segment-FileHolds : FileHolds sum32 crashed_segment (first ∷ [])
unfolding log_size
crashed_segment-FileHolds = record {
  spare = 66 ∷ 0 ∷ [];
  log_is = refl;
  torn = inl (omega arith);
  index_bytes = omega arith;
  small = ((first_fits, omega arith), tt);
  offsets_fit = omega arith;
  log_fits = omega arith;
}

abbrev crashed_world : World
crashed_world = record {
  config = default_config;
  crc = sum32;
  segment_files = λ name. crashed_segment ∷ [];
  group_files = λ name. ok (record { name = 103 ∷ []; is_dir = false; state = some 1 } ∷ []);
  recovery = healthy;
  disk = record { succeeds = λ c. true; leaves = λ c. 0 };
  save_ok = true;
  now = 50;
  timestamp = 102;
}

open_topic-SoundTopic_example :
    (t : Topic) × (open_topic crashed_world orders ≡ ok t) × SoundTopic sum32 7 t
unfolding log_size
open_topic-SoundTopic_example =
    open_topic-SoundTopic crashed_world orders 7 crashed_segment [] (first ∷ [])
      (record { name = 103 ∷ []; is_dir = false; state = some 1 } ∷ []) refl refl refl
      (first ∷ [], [], refl, refl, crashed_segment-FileHolds, inl refl, refl) (omega arith)
      (omega arith) (omega arith) (omega arith)
      ((λ n e. let same : 1 ≡ n = cc in omega (arith, same)), tt)
