-- ===== src/Wal/Tests.antt =====
-- The theorems on the log at concrete logs, with a sum of the bytes for the checksum.
use tumbleweed.Base.{◌≡◌, refl, [], ◌∷◌, ◌++◌, Bool, true, false, ok, arith}
use tumbleweed.Bytes.{put_uint}
use tumbleweed.Wal.Samples.{sum32, sum32_fits, first, second, first_fits, second_fits}
use tumbleweed.Wal.{Wal, roll, append, read}
use tumbleweed.Wal.Encoding.Layout.{Entry, EntryFits, record_layout}
use tumbleweed.Wal.SegmentFile.{
  Segment, Call, Disk, idx_sync, read_record, read_segment, write_segment,
}
use tumbleweed.Wal.SegmentFile.Holds.{Holds, records, positions, log_size}
use tumbleweed.Wal.SegmentFile.Read.{record_of, read_record-layout, read_segment-Holds}
use tumbleweed.Wal.SegmentFile.Append.{Wrote, write_segment-Wrote}
use tumbleweed.Wal.Log.{Logs}
use tumbleweed.Wal.Log.Find.{read-Logs}
use tumbleweed.Wal.Log.Append.{Appended, Room, append-Appended, Rolled, roll-Rolled}

abbrev third : Entry
third = record { timestamp = 102; key = 2 ∷ []; value = [] }

third_fits : EntryFits third
third_fits = record {
  timestamp_fits = omega arith;
  key_fits = omega arith;
  value_fits = omega arith;
}

-- a segment with two records, behind which a failed write left two bytes
abbrev two_records : Segment
two_records = record {
  base_offset = 5;
  log = records sum32 5 (first ∷ second ∷ []) ++ (66 ∷ 0 ∷ []);
  index = positions 0 (first ∷ second ∷ []);
  size = 62;
  idx_size = 16;
}

two_records_hold : Holds sum32 two_records (first ∷ second ∷ [])
unfolding positions log_size put_uint
two_records_hold = record {
  spare = 66 ∷ 0 ∷ [];
  log_is = refl;
  size_is = refl;
  idx_spare = [];
  index_is = refl;
  idx_size_is = refl;
  entries_fit = (first_fits, (second_fits, tt));
  offsets_fit = omega arith;
  log_fits = omega arith;
}

-- a log whose active segment is full
abbrev full_log : Wal
full_log = record {
  sync_every_write = true;
  max_segment_bytes = 60;
  sealed = [];
  active = two_records;
  next_offset = 7;
  closed = false;
}

full_log-Logs : Logs sum32 full_log 5 (first ∷ second ∷ [])
full_log-Logs = record {
  chain = (first ∷ second ∷ [], [], refl, refl, two_records_hold, refl);
  next_is = refl;
}

-- a disk on which the last sync fails
abbrev bad_sync : Call → Bool
bad_sync idx_sync = false
bad_sync _ = true

abbrev disk : Disk
disk = record { succeeds = bad_sync; leaves = λ c. 3 }

read_record-layout_example :
    read_record sum32 (record_layout sum32 5 first ++ (1 ∷ [])) ≡ ok (record_of sum32 5 first)
read_record-layout_example =
    read_record-layout sum32 sum32_fits 5 first (1 ∷ []) (omega arith) first_fits

read_segment-Holds_example : read_segment sum32 two_records 6 ≡ ok (record_of sum32 6 second)
read_segment-Holds_example =
    read_segment-Holds sum32 sum32_fits two_records (first ∷ []) [] second two_records_hold

write_segment-Wrote_example :
    Wrote sum32 two_records
      (first ∷ second ∷ [])
      third
      (write_segment disk two_records (record_layout sum32 7 third))
write_segment-Wrote_example =
    write_segment-Wrote sum32 two_records (first ∷ second ∷ []) two_records_hold disk third
      third_fits (omega arith) (omega arith)

read-Logs_example : read sum32 full_log 6 ≡ ok (record_of sum32 6 second)
read-Logs_example = read-Logs sum32 sum32_fits full_log 5 (first ∷ []) [] second full_log-Logs

roll-Rolled_example : Rolled sum32 full_log 5 (first ∷ second ∷ []) (roll disk full_log)
roll-Rolled_example =
    roll-Rolled sum32 disk full_log 5 (first ∷ second ∷ []) full_log-Logs (omega arith)
      (omega arith)

third_has-Room : Room sum32 full_log 5 (first ∷ second ∷ []) third
third_has-Room = record {
  entry_fits = third_fits;
  offset_free = omega arith;
  file_free = omega arith;
}

append-Appended_example :
    Appended sum32 5 7 (first ∷ second ∷ []) third (append sum32 disk 102 full_log (2 ∷ []) [])
append-Appended_example =
    append-Appended sum32 disk full_log 5 (first ∷ second ∷ []) third full_log-Logs refl
      (omega arith) third_has-Room
