-- ===== src/Wal/Recovery/Tests.antt =====
-- Recovery at the files that a crash left behind.
use tumbleweed.Base.{◌≡◌, refl, [], ◌∷◌, ◌++◌, All, inl, inr, true, false, ok, arith}
use tumbleweed.Bytes.{put_uint}
use tumbleweed.Wal.Samples.{sum32, first, second, first_fits, second_fits}
use tumbleweed.Wal.SegmentFile.{Segment}
use tumbleweed.Wal.SegmentFile.Holds.{records, log_size}
use tumbleweed.Wal.{Wal}
use tumbleweed.Wal.Log.{Logs}
use tumbleweed.Wal.Recovery.{verify_or_rebuild_index, new_wal}
use tumbleweed.Wal.Recovery.Steps.{healthy, IsSmall}
use tumbleweed.Wal.Recovery.Rebuilt.{whole_segment, verify_or_rebuild_index-whole}
use tumbleweed.Wal.Recovery.Reopened.{FileHolds, new_wal-Logs}

-- two records, of which the index misses the second, and a write that the crash cut off
abbrev torn_segment : Segment
torn_segment = record {
  base_offset = 5;
  log = records sum32 5 (first ∷ second ∷ []) ++ (66 ∷ 0 ∷ []);
  index = 0 ∷ 0 ∷ 0 ∷ 0 ∷ 0 ∷ 0 ∷ 0 ∷ 0 ∷ 9 ∷ [];
  size = 64;
  idx_size = 9;
}

-- one record, and bytes that do not begin as a record
abbrev full_segment : Segment
full_segment = record {
  base_offset = 4;
  log = records sum32 4 (first ∷ []) ++ (7 ∷ 7 ∷ []);
  index = [];
  size = 0;
  idx_size = 0;
}

two-IsSmall : All IsSmall (first ∷ second ∷ [])
two-IsSmall = ((first_fits, omega arith), ((second_fits, omega arith), tt))

torn_segment-FileHolds : FileHolds sum32 torn_segment (first ∷ second ∷ [])
unfolding log_size
torn_segment-FileHolds = record {
  spare = 66 ∷ 0 ∷ [];
  log_is = refl;
  torn = inl (omega arith);
  index_bytes = omega arith;
  small = two-IsSmall;
  offsets_fit = omega arith;
  log_fits = omega arith;
}

full_segment-FileHolds : FileHolds sum32 full_segment (first ∷ [])
unfolding log_size
full_segment-FileHolds = record {
  spare = 7 ∷ 7 ∷ [];
  log_is = refl;
  torn = inr (7, 7 ∷ [], refl, refl);
  index_bytes = tt;
  small = ((first_fits, omega arith), tt);
  offsets_fit = omega arith;
  log_fits = omega arith;
}

verify_or_rebuild_index-whole_example :
    verify_or_rebuild_index healthy torn_segment ≡ ok (whole_segment sum32 5 (first ∷ second ∷ []))
unfolding records put_uint
verify_or_rebuild_index-whole_example =
    verify_or_rebuild_index-whole sum32 torn_segment
      (record { size_is = refl; idx_size_is = refl; idx_bytes = omega arith }) (first ∷ second ∷ [])
      (66 ∷ 0 ∷ []) refl two-IsSmall (inl (omega arith))

new_wal-Logs_example :
    (w : Wal) × (new_wal healthy true 60 (full_segment ∷ torn_segment ∷ []) ≡ ok w)
    × Logs sum32 w 4 (first ∷ first ∷ second ∷ [])
    × (w.closed ≡ false)
    × (w.max_segment_bytes ≡ 60)
new_wal-Logs_example =
    new_wal-Logs sum32 true 60 4 full_segment (torn_segment ∷ []) (first ∷ first ∷ second ∷ []) (
      first ∷ [],
      first ∷ second ∷ [],
      refl,
      refl,
      full_segment-FileHolds,
      inr (omega arith),
      (first ∷ second ∷ [], [], refl, refl, torn_segment-FileHolds, inl refl, refl),
    )
