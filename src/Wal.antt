-- ===== src/Wal.antt =====
-- pkg/wal/wal.go: the write-ahead log of a topic. `w.segments` is `sealed` with `active` behind it:
-- loadSegments and roll always make the last segment the active one. The directory holds a pair of
-- files per base offset, which are the contents of the last segment with that base; so a pair that roll
-- opens holds nothing, unless a segment with that base is at hand. `max_segment_bytes` is not negative. A flush changes no contents;
-- what runs it in the background is not modelled.
pub mod Encoding
pub mod SegmentFile
pub mod Search
pub mod Log
pub mod Recovery
pub mod Closing
pub mod Samples
mod Tests
use tumbleweed.Base.{
  ℕ, ◌+◌, ◌-◌, ◌%◌, ◌^◌, List, [], ◌∷◌, ◌++◌, Bool, true, false, not, Option, none, some, length,
  ltb, leb, ◌==◌, if◌then◌else◌, Result, ok, err, io, wal_closed, offset_not_found, panics, ◌>>=◌,
}
use tumbleweed.Wal.Encoding.{Record, encode_record}
use tumbleweed.Wal.SegmentFile.{
  Segment, Disk, roll_log_sync, roll_idx_sync, open_files, log_sync, idx_sync, write_segment,
  read_segment,
}
use tumbleweed.Wal.Search.{search, nth}

pub record Wal : Type 0 where
  pub sync_every_write : Bool
  pub max_segment_bytes : ℕ
  pub sealed : List Segment
  pub active : Segment
  pub next_offset : ℕ
  pub closed : Bool

abbrev pub segments : Wal → List Segment
segments w = w.sealed ++ (w.active ∷ [])

-- The last segment with this base offset, with the sizes of its files, or else what is at hand.
abbrev pub last_with : Segment → List Segment → ℕ → Segment
last_with found [] base = found
last_with found (s ∷ rest) base =
    last_with
      (if s.base_offset == base
        then record s { size = length s.log; idx_size = length s.index }
        else found)
      rest base

-- The contents of the files of a base offset: those of the last segment with it, to which alone Append
-- writes, where roll has opened the files again while the active segment was empty.
unfoldable pub open_segment : List Segment → ℕ → Segment
open_segment dir base =
    last_with (record { base_offset = base; log = []; index = []; size = 0; idx_size = 0 }) dir base

unfoldable pub roll : Disk → Wal → Wal × Result (Unit {0})
roll disk w =
    if not (disk.succeeds roll_log_sync)
    then (w, err io)
    else if not (disk.succeeds roll_idx_sync)
    then (w, err io)
    else if not (disk.succeeds open_files)
    then (w, err io)
    else (record w { sealed = segments w; active = open_segment (segments w) w.next_offset }, ok tt)

-- Append, after the write: the sync and the result
unfoldable pub finish_append : Disk → Wal → ℕ → Wal × Result ℕ
finish_append disk w offset =
    if w.sync_every_write
    then (if not (disk.succeeds log_sync)
        then (w, err io)
        else if not (disk.succeeds idx_sync)
        then (w, err io)
        else (w, ok offset))
    else (w, ok offset)

abbrev count_append : Disk → Wal → ℕ → Segment × Result (Unit {0}) → Wal × Result ℕ
count_append disk w offset (seg, err e) = (record w { active = seg }, err e)
count_append disk w offset (seg, ok _) =
    finish_append disk (record w { active = seg; next_offset = (w.next_offset + 1) % 2 ^ 64 })
      offset

module _ (crc : List ℕ → ℕ) where
  abbrev write_buffer : Disk → Wal → ℕ → Result (List ℕ) → Wal × Result ℕ
  write_buffer disk w offset (err e) = (w, err e)
  write_buffer disk w offset (ok buf) = count_append disk w offset (write_segment disk w.active buf)

  -- Append, after the check of the active segment's size
  unfoldable pub append_active : Disk → ℕ → Wal → List ℕ → List ℕ → Wal × Result ℕ
  append_active disk timestamp w key value =
      let offset = w.next_offset in
      write_buffer disk w offset (encode_record crc offset timestamp key value)

  abbrev append_rolled : Disk → ℕ → List ℕ → List ℕ → Wal × Result (Unit {0}) → Wal × Result ℕ
  append_rolled disk timestamp key value (w, err e) = (w, err e)
  append_rolled disk timestamp key value (w, ok _) = append_active disk timestamp w key value

  -- `timestamp` is what the clock says.
  unfoldable pub append : Disk → ℕ → Wal → List ℕ → List ℕ → Wal × Result ℕ
  append disk timestamp w key value =
      if w.closed
      then (w, err wal_closed)
      else if leb w.max_segment_bytes w.active.size
      then append_rolled disk timestamp key value (roll disk w)
      else append_active disk timestamp w key value

-- findSegment: the binary search of sort.Search, and the two tests behind it
unfoldable pub find_segment : List Segment → ℕ → Result (Option Segment)
find_segment segs offset = do
  idx ← search (length segs) (λ i. do s ← nth segs i; ok (ltb offset s.base_offset))
  if ltb 0 idx
      then (do s ← nth segs (idx - 1); ok (some s))
      else if ltb 0 (length segs)
      then (do s ← nth segs 0; ok (if leb s.base_offset offset then some s else none))
      else ok none

module _ (crc : List ℕ → ℕ) where
  abbrev read_found : ℕ → Option Segment → Result Record
  read_found offset none = err offset_not_found
  read_found offset (some seg) = read_segment crc seg offset

  unfoldable pub read : Wal → ℕ → Result Record
  read w offset =
      if leb w.next_offset offset
      then err offset_not_found
      else do found ← find_segment (segments w) offset; read_found offset found
