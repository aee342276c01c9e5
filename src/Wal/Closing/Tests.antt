-- ===== src/Wal/Closing/Tests.antt =====
-- Close of a log whose index cannot be synced.
use tumbleweed.Base.{[], Bool, true, false}
use tumbleweed.Wal.Samples.{sum32}
use tumbleweed.Wal.SegmentFile.{Segment}
use tumbleweed.Wal.{Wal}
use tumbleweed.Wal.Closing.{ClosingCall, sync_idx, close, Refuses, close-Refuses}

abbrev bad_sync : ClosingCall → Segment → Bool
bad_sync sync_idx seg = false
bad_sync _ seg = true

abbrev empty_log : Wal
empty_log = record {
  sync_every_write = true;
  max_segment_bytes = 60;
  sealed = [];
  active = record { base_offset = 0; log = []; index = []; size = 0; idx_size = 0 };
  next_offset = 0;
  closed = false;
}

close-Refuses_example : Refuses bad_sync sum32 (close bad_sync empty_log).0
close-Refuses_example = close-Refuses bad_sync sum32 empty_log
