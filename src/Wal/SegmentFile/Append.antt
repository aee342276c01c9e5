-- ===== src/Wal/SegmentFile/Append.antt =====
-- pkg/wal/wal.go, Append: a write to a segment in order leaves it in order.
use native.Mathlib.Nat.{zero-add, suc-add}
use tumbleweed.Base.{
  ℕ, ◌+◌, ◌^◌, ◌<◌, ◌≡◌, refl, sym, ap, ◌∙◌, ◌⊎◌, inl, inr, List, [], ◌∷◌, ◌++◌, not, if_holds,
  length, length-append, take, take-append, drop, All, append_assoc, Result, ok, err, io, arith,
}
use tumbleweed.Bytes.{put_uint}
use tumbleweed.Wal.Encoding.Layout.{Entry, EntryFits, record_layout}
use tumbleweed.Wal.SegmentFile.{
  Segment, Disk, log_seek, log_write, idx_seek, idx_write, write_at, write_segment,
}
use tumbleweed.Wal.SegmentFile.Holds.{
  Holds, positions, records, length-positions, length-records, length-record, record_size,
  last_position, last_record, last_size,
}

drop-add : (xs ys : List ℕ) (n : ℕ) → drop (length xs + n) (xs ++ ys) ≡ drop n ys
drop-add [] ys n = rw zero-add
drop-add (x ∷ xs) ys n = rw (suc-add (length xs) n) (drop-add xs ys n)

-- A write behind the bytes that count keeps them.
write_at-behind :
    (kept spare bytes : List ℕ) (pos : ℕ)
    → pos ≡ length kept
    → write_at (kept ++ spare) pos bytes ≡ kept ++ (bytes ++ drop (length bytes) spare)
unfolding write_at
write_at-behind kept spare bytes pos e =
    rw (e, drop-add kept spare (length bytes), append_assoc kept spare _, take-append kept _)

All-snoc :
    (P : Entry → Type 0) (es : List Entry) (e : Entry) → All P es → P e → All P (es ++ (e ∷ []))
All-snoc P [] e h k = (k, tt)
All-snoc P (x ∷ es) e h k = (h.0, All-snoc P es e h.1 k)

module _ (crc : List ℕ → ℕ) (seg : Segment) (es : List Entry) (h : Holds crc seg es) where
  log_written :
      (bytes : List ℕ)
      → write_at seg.log seg.size bytes
        ≡ records crc seg.base_offset es ++ (bytes ++ drop (length bytes) h.spare)
  log_written bytes = rw h.log_is (
      write_at-behind (records crc seg.base_offset es) h.spare bytes seg.size
        (h.size_is ∙ sym (length-records crc seg.base_offset es)))

  idx_written :
      (bytes : List ℕ)
      → write_at seg.index seg.idx_size bytes
        ≡ positions 0 es ++ (bytes ++ drop (length bytes) h.idx_spare)
  idx_written bytes = rw h.index_is (
      write_at-behind (positions 0 es) h.idx_spare bytes seg.idx_size
        (h.idx_size_is ∙ sym (length-positions 0 es)))

  -- Bytes written behind the sizes in memory do not count.
  log_write-Holds :
      (bytes : List ℕ) → Holds crc (record seg { log = write_at seg.log seg.size bytes }) es
  log_write-Holds bytes = record {
    spare = bytes ++ drop (length bytes) h.spare;
    log_is = log_written bytes;
    size_is = h.size_is;
    idx_spare = h.idx_spare;
    index_is = h.index_is;
    idx_size_is = h.idx_size_is;
    entries_fit = h.entries_fit;
    offsets_fit = h.offsets_fit;
    log_fits = h.log_fits;
  }

  idx_write-Holds :
      (bytes : List ℕ) → Holds crc (record seg { index = write_at seg.index seg.idx_size bytes }) es
  idx_write-Holds bytes = record {
    spare = h.spare;
    log_is = h.log_is;
    size_is = h.size_is;
    idx_spare = bytes ++ drop (length bytes) h.idx_spare;
    index_is = idx_written bytes;
    idx_size_is = h.idx_size_is;
    entries_fit = h.entries_fit;
    offsets_fit = h.offsets_fit;
    log_fits = h.log_fits;
  }

  -- Both writes, and the sizes that count them.
  full_write-Holds :
      (e : Entry)
      → EntryFits e
      → seg.base_offset + length es + 1 < 2 ^ 60
      → seg.size + record_size e < 2 ^ 63
      → let entry = record_layout crc (seg.base_offset + length es) e in
        Holds crc
          (record seg {
            log = write_at seg.log seg.size entry;
            index = write_at seg.index seg.idx_size (put_uint 8 seg.size);
            size = seg.size + length entry;
            idx_size = seg.idx_size + 8;
          })
          (es ++ (e ∷ []))
  full_write-Holds e fits offsets room =
      let entry = record_layout crc (seg.base_offset + length es) e in
      record {
        spare = drop (length entry) h.spare;
        log_is =
            log_written entry
            ∙ sym (append_assoc (records crc seg.base_offset es) entry _)
            ∙ ap (λ t. t ++ drop (length entry) h.spare)
                (sym (last_record crc seg.base_offset es e));
        size_is =
            omega
              (arith, h.size_is, last_size es e, length-record crc (seg.base_offset + length es) e);
        idx_spare = drop (length (put_uint 8 seg.size)) h.idx_spare;
        index_is =
            idx_written (put_uint 8 seg.size)
            ∙ sym (append_assoc (positions 0 es) (put_uint 8 seg.size) _)
            ∙ ap (λ t. t ++ drop (length (put_uint 8 seg.size)) h.idx_spare)
                (ap (λ n. positions 0 es ++ put_uint 8 n) h.size_is ∙ sym (last_position es e));
        idx_size_is = omega (arith, h.idx_size_is, length-append es (e ∷ []));
        entries_fit = All-snoc EntryFits es e h.entries_fit fits;
        offsets_fit = omega (arith, length-append es (e ∷ []));
        log_fits = omega (arith, h.size_is, last_size es e);
      }

module _ (crc : List ℕ → ℕ) (seg : Segment) (es : List Entry) where
  -- After a write of entry `e` the segment holds it, or the write failed and it holds what it held.
  abbrev pub Wrote : Entry → Segment × Result (Unit {0}) → Type 0
  Wrote e (seg', r) =
      (seg'.base_offset ≡ seg.base_offset)
      × (((r ≡ ok tt) × Holds crc seg' (es ++ (e ∷ []))) ⊎ ((r ≡ err io) × Holds crc seg' es))

module _ (crc : List ℕ → ℕ) (seg : Segment) (es : List Entry) (h : Holds crc seg es) where
  -- In a segment in order, with room for the entry and whichever system calls fail: a write of the
  -- entry's record succeeds and the segment holds the old entries and then the new one, or it fails
  -- with an I/O error and the segment holds the old entries. Its base offset stays.
  pub write_segment-Wrote :
      (disk : Disk) (e : Entry)
      → EntryFits e
      → seg.base_offset + length es + 1 < 2 ^ 60
      → seg.size + record_size e < 2 ^ 63
      → Wrote crc seg es e
          (write_segment disk seg (record_layout crc (seg.base_offset + length es) e))
  unfolding write_segment
  write_segment-Wrote disk e fits offsets room =
      let P = Wrote crc seg es e in
      let entry = record_layout crc (seg.base_offset + length es) e in
      let logged = record seg { log = write_at seg.log seg.size entry } in
      let h' : Holds crc logged es = log_write-Holds crc seg es h entry in
      if_holds P (not (disk.succeeds log_seek)) _ _ (refl, inr (refl, h))
        (if_holds P (not (disk.succeeds log_write)) _ _
          (refl, inr (refl, log_write-Holds crc seg es h (take (disk.leaves log_write) entry)))
          (if_holds P (not (disk.succeeds idx_seek)) _ _ (refl, inr (refl, h'))
            (if_holds P (not (disk.succeeds idx_write)) _ _
              (
                refl,
                inr (
                  refl,
                  idx_write-Holds crc logged es h'
                      (take (disk.leaves idx_write) (put_uint 8 seg.size)),
                ),
              )
              (refl, inl (refl, full_write-Holds crc seg es h e fits offsets room)))))
