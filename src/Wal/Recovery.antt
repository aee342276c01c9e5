-- ===== src/Wal/Recovery.antt =====
-- pkg/wal/wal.go: how NewWAL opens a log again. A directory is the list of its segments' files, by base
-- offset; `succeeds` says which system calls succeed. After a failed call NewWAL returns no log, and
-- what is then on disk is not followed. The names of the files are not modelled.
pub mod Steps
pub mod Scanned
pub mod Rebuilt
pub mod NextOffset
pub mod Reopened
mod Tests
use tumbleweed.Base.{
  ℕ, zero, suc, ◌+◌, ◌-◌, ◌*◌, ◌%◌, ◌^◌, List, [], ◌∷◌, ◌++◌, Bool, true, false, not, ◌||◌, length,
  take, drop, ltb, leb, ◌==◌, if◌then◌else◌, Result, ok, err, io, blocked, panics, ◌>>=◌,
}
use tumbleweed.Bytes.{make, read_uint, uint, put_uint}
use tumbleweed.Bytes.Stream.{read_full}
use tumbleweed.Wal.Encoding.{magic_byte}
use tumbleweed.Wal.SegmentFile.{Segment, is_negative, seek}
use tumbleweed.Wal.{Wal, open_segment}

-- The system calls of recovery.
pub data RecoveryCall : Type 0 where
  read_dir open_files seek_log seek_idx truncate_log truncate_idx write_idx sync_idx : RecoveryCall

abbrev pub call : (RecoveryCall → Bool) → RecoveryCall → Result (Unit {0})
call succeeds c = if succeeds c then ok tt else err io

-- a file cut, or filled with zeros, to `n` bytes
unfoldable pub truncate : List ℕ → ℕ → List ℕ
truncate file n = take n (file ++ make (n - length file))

-- The variables of the scan in verifyOrRebuildIndex.
pub record Scan : Type 0 where
  pub log_pos : ℕ
  pub records : ℕ
  pub rebuild : Bool

-- The size of a record, from the key's length at `i` in its header; the sum is one of uint32.
unfoldable pub record_step : List ℕ → ℕ → Result ℕ
record_step header i = do
  key_len ← read_uint 4 header i (i + 4)
  value_len ← read_uint 4 header (i + 4) (i + 8)
  ok ((1 + 24 + key_len + value_len + 4) % 2 ^ 32)

module _ (succeeds : RecoveryCall → Bool) where
  -- whether the index has the position of this record
  unfoldable pub index_agrees : Segment → Scan → Result Bool
  index_agrees seg s =
      let idx_pos = s.records * 8 in
      if ltb seg.idx_size (idx_pos + 8) then ok false else do
        _ ← call succeeds seek_idx
        (offset_buf, _) ← read_full 8 (drop idx_pos seg.index)
        ok (uint offset_buf == s.log_pos)

  abbrev pub scan_header :
      (Scan → Result Scan) → Segment → Scan → Result (List ℕ × List ℕ) → Result Scan
  scan_header next seg s (err e) = ok (record s { rebuild = true })
  scan_header next seg s (ok (header, _)) = do
    size ← record_step header 16
    agrees ← index_agrees seg s
    _ ← call succeeds seek_log
    next (record {
      log_pos = s.log_pos + size;
      records = s.records + 1;
      rebuild = s.rebuild || not agrees;
    })

  -- one round, on the bytes from `log_pos` on
  abbrev pub scan_record : (Scan → Result Scan) → Segment → Scan → List ℕ → Result Scan
  scan_record next seg s [] = ok s
  scan_record next seg s (magic ∷ rest) =
      if not (magic == magic_byte)
      then ok (record s { rebuild = true })
      else scan_header next seg s (read_full 24 rest)

  -- The scan. A round moves forward by a byte at least, unless the size of the record wraps to 0; then
  -- the source's loop does not end. So fuel above the size of the file runs out only where it does not.
  unfoldable pub scan : ℕ → Segment → Scan → Result Scan
  scan zero seg s = err blocked
  scan (suc fuel) seg s =
      let more = scan_record (scan fuel seg) seg s (drop s.log_pos seg.log) in
      if leb seg.size s.log_pos then ok s else more

  abbrev pub rebuild_record : (ℕ → Result (List ℕ)) → List ℕ → ℕ → Result (List ℕ)
  rebuild_record next log scan_pos = do
    (header, _) ← read_full 25 (drop scan_pos log)
    size ← record_step header 17
    _ ← call succeeds write_idx
    _ ← call succeeds seek_log
    rest ← next (scan_pos + size)
    ok (put_uint 8 scan_pos ++ rest)

  -- what the rebuilding loop writes to the index, with fuel as for the scan
  unfoldable pub rebuild_loop : ℕ → List ℕ → ℕ → ℕ → Result (List ℕ)
  rebuild_loop zero log size scan_pos = err blocked
  rebuild_loop (suc fuel) log size scan_pos =
      let more = rebuild_record (rebuild_loop fuel log size) log scan_pos in
      if ltb scan_pos size then more else ok []

  unfoldable pub truncate_tail : Scan → Segment → Result Segment
  truncate_tail s seg =
      if ltb s.log_pos seg.size
      then (do
        _ ← call succeeds truncate_log
        ok (record seg { log = truncate seg.log s.log_pos; size = s.log_pos }))
      else ok seg

  unfoldable pub rebuild_index : ℕ → Segment → Result Segment
  rebuild_index records seg = do
    _ ← call succeeds truncate_idx
    _ ← call succeeds seek_idx
    _ ← call succeeds seek_log
    index ← rebuild_loop (seg.size + 1) seg.log seg.size 0
    _ ← call succeeds sync_idx
    ok (record seg { index = index; idx_size = records * 8 })

  unfoldable pub verify_or_rebuild_index : Segment → Result Segment
  verify_or_rebuild_index seg = do
    _ ← call succeeds seek_log
    s ← scan (seg.size + 1) seg (record { log_pos = 0; records = 0; rebuild = false })
    seg ← truncate_tail s seg
    if s.rebuild || not (seg.idx_size == s.records * 8) then rebuild_index s.records seg else ok seg

  -- recoverNextOffset: the offset behind that of the last record which the index names
  unfoldable pub recover_next_offset : Segment → Result ℕ
  recover_next_offset active = if active.idx_size == 0 then ok active.base_offset else do
    _ ← call succeeds seek_idx
    index ← (if ltb active.idx_size 8 then err io else ok (drop (active.idx_size - 8) active.index))
    (pos_buf, _) ← read_full 8 index
    _ ← call succeeds seek_log
    log ← seek active.log ((uint pos_buf + 1) % 2 ^ 64)
    (offset_buf, _) ← read_full 8 log
    ok ((uint offset_buf + 1) % 2 ^ 64)

  -- the loop over the base offsets
  unfoldable pub open_all : List Segment → List ℕ → Result (List Segment)
  open_all dir [] = ok []
  open_all dir (base ∷ bases) = do
    _ ← call succeeds open_files
    seg ← verify_or_rebuild_index (open_segment dir base)
    segs ← open_all dir bases
    ok (seg ∷ segs)

-- `sort.Slice` by `<`
unfoldable pub insert_base : ℕ → List ℕ → List ℕ
insert_base b [] = b ∷ []
insert_base b (x ∷ xs) = if ltb x b then x ∷ insert_base b xs else b ∷ (x ∷ xs)

unfoldable pub sort_bases : List ℕ → List ℕ
unfolding insert_base
sort_bases [] = []
sort_bases (b ∷ bs) = insert_base b (sort_bases bs)

abbrev pub bases_of : List Segment → List ℕ
bases_of [] = []
bases_of (seg ∷ segs) = seg.base_offset ∷ bases_of segs

-- the segments before the last one, and the last one
abbrev pub split_last : Segment → List Segment → List Segment × Segment
split_last seg [] = ([], seg)
split_last seg (s ∷ segs) = let (early, last) = split_last s segs in (seg ∷ early, last)

module _ (succeeds : RecoveryCall → Bool) where
  -- the end of loadSegments: a new segment where there is none, and the next offset
  abbrev pub activate : Bool → ℕ → List Segment → List Segment → Result Wal
  activate sync max dir [] = do
    _ ← call succeeds open_files
    next ← recover_next_offset succeeds (open_segment dir 0)
    ok (record {
      sync_every_write = sync;
      max_segment_bytes = max;
      sealed = [];
      active = open_segment dir 0;
      next_offset = next;
      closed = false;
    })
  activate sync max dir (seg ∷ segs) = do
    let (early, last) = split_last seg segs
    next ← recover_next_offset succeeds last
    ok (record {
      sync_every_write = sync;
      max_segment_bytes = max;
      sealed = early;
      active = last;
      next_offset = next;
      closed = false;
    })

  unfoldable pub new_wal : Bool → ℕ → List Segment → Result Wal
  new_wal sync max dir = do
    _ ← call succeeds read_dir
    segs ← open_all succeeds dir (sort_bases (bases_of dir))
    activate sync max dir segs
