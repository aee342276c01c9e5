-- ===== src/Broker/Samples.antt =====
-- A log with two records, and a broker with it, for the tests of the broker.
use tumbleweed.Base.{Bool, ok, refl, [], ◌∷◌, true, false, arith}
use tumbleweed.Bytes.{put_uint}
use tumbleweed.Wal.Samples.{sum32, sum32_fits, first, second, first_fits, second_fits}
use tumbleweed.Wal.SegmentFile.{Segment}
use tumbleweed.Wal.SegmentFile.Holds.{Holds, records, positions, log_size}
use tumbleweed.Wal.{Wal}
use tumbleweed.Wal.Log.{Logs}
use tumbleweed.Wal.SegmentFile.{Call, idx_sync}
use tumbleweed.Wal.Log.Append.{Room}
use tumbleweed.Broker.Names.{Name, find, same_name}
use tumbleweed.Broker.Topics.{Topic, BrokerState, World, default_config}
use tumbleweed.Broker.Produce.Laws.{Writable, entry_of}

abbrev pub two_records : Segment
two_records = record {
  base_offset = 0;
  log = records sum32 0 (first ∷ second ∷ []);
  index = positions 0 (first ∷ second ∷ []);
  size = 62;
  idx_size = 16;
}

two_records_hold : Holds sum32 two_records (first ∷ second ∷ [])
unfolding positions log_size put_uint records
two_records_hold = record {
  spare = [];
  log_is = refl;
  size_is = refl;
  idx_spare = [];
  index_is = refl;
  idx_size_is = refl;
  entries_fit = (first_fits, (second_fits, tt));
  offsets_fit = omega arith;
  log_fits = omega arith;
}

abbrev pub a_log : Wal
a_log = record {
  sync_every_write = true;
  max_segment_bytes = 1000;
  sealed = [];
  active = two_records;
  next_offset = 2;
  closed = false;
}

pub a_log-Logs : Logs sum32 a_log 0 (first ∷ second ∷ [])
a_log-Logs = record {
  chain = (first ∷ second ∷ [], [], refl, refl, two_records_hold, refl);
  next_is = refl;
}

-- a disk on which the last sync fails
abbrev pub bad_sync : Call → Bool
bad_sync idx_sync = false
bad_sync _ = true

abbrev pub a_world : World
a_world = record {
  config = default_config;
  crc = sum32;
  segment_files = λ name. [];
  group_files = λ name. ok [];
  recovery = λ c. true;
  disk = record { succeeds = bad_sync; leaves = λ c. 3 };
  save_ok = true;
  now = 50;
  timestamp = 102;
}

abbrev pub orders : Name
orders = 97 ∷ []

abbrev pub quiet_topic : Topic
quiet_topic = record { wal = a_log; groups = []; pending_fetches = (98 ∷ [], []) ∷ [] }

abbrev pub broker_with : Topic → BrokerState
broker_with t = record { topics = (orders, t) ∷ []; sent = [] }

pub message_has-Room : Room sum32 a_log 0 (first ∷ second ∷ []) (entry_of a_world [] (8 ∷ []))
unfolding log_size
message_has-Room = record {
  entry_fits = record {
    timestamp_fits = omega arith;
    key_fits = omega arith;
    value_fits = omega arith;
  };
  offset_free = omega arith;
  file_free = omega arith;
}

pub quiet-Writable :
    Writable a_world
      (broker_with quiet_topic)
      orders
      quiet_topic
      (first ∷ second ∷ [])
      (entry_of a_world [] (8 ∷ []))
unfolding find same_name
quiet-Writable = record {
  there = refl;
  logs = a_log-Logs;
  opened = refl;
  segment_size = omega arith;
  room = message_has-Room;
  crc_fits = sum32_fits;
}
