-- ===== src/Wal/SegmentFile/Read.antt =====
-- pkg/wal/wal.go, Read: a record in a segment in order is read back.
use native.Mathlib.Nat.{mod-eq_of_lt}
use tumbleweed.Base.{
  ℕ, ◌+◌, ◌-◌, ◌*◌, ◌%◌, ◌^◌, ◌≤◌, ◌<◌, ◌≡◌, refl, sym, ap, ◌∙◌, List, [], ◌∷◌, ◌++◌, true, false,
  length, length-append, drop, drop-append, append_assoc, ◌==◌, ok, arith,
}
use tumbleweed.Bytes.{put_uint, uint, uint-put_uint_fits}
use tumbleweed.Bytes.Buffer.{sizes}
use tumbleweed.Bytes.Cursor.{At, At-start, At-uint, read_uint_passes}
use tumbleweed.Bytes.Stream.{read_full_passes}
use tumbleweed.Wal.Encoding.{Record, magic_byte, crc_buffer}
use tumbleweed.Wal.Encoding.Layout.{
  Entry, EntryFits, covered_layout, record_layout, crc_buffer-layout,
}
use tumbleweed.Wal.SegmentFile.{Segment, seek, int64_gt, read_record, read_segment}
use tumbleweed.Wal.SegmentFile.Holds.{
  Holds, positions, records, length-positions, length-records, log_size, log_size-append,
  record_size, positions-at, records-at, All-at,
}

==-refl : (n : ℕ) → (n == n) ≡ true
==-refl n = ground arith

crc_buffer_fits :
    (offset : ℕ) (e : Entry)
    → EntryFits e
    → crc_buffer offset e.timestamp (length e.key) (length e.value) e.key e.value
      ≡ ok (covered_layout offset e)
crc_buffer_fits offset e h =
    ap (λ n. crc_buffer offset e.timestamp n (length e.value) e.key e.value)
      (sym (mod-eq_of_lt h.key_fits))
    ∙ ap (λ n. crc_buffer offset e.timestamp (length e.key % 2 ^ 32) n e.key e.value)
        (sym (mod-eq_of_lt h.value_fits))
    ∙ crc_buffer-layout offset e

drop_at : (pre post : List ℕ) (n : ℕ) → n ≡ length pre → drop n (pre ++ post) ≡ post
drop_at pre post n e = rw e (drop-append pre post)

pub seek_at :
    (pre post : List ℕ) (n : ℕ) → n ≡ length pre → n < 2 ^ 63 → seek (pre ++ post) n ≡ ok post
unfolding seek
seek_at pre post n e h = rw (drop_at pre post n e) (ground arith)

-- The position of an offset in the index, and the test on it.
index_position :
    (base n : ℕ)
    → n < 2 ^ 60
    → base < 2 ^ 60
    → (base + n + 2 ^ 64 - base) % 2 ^ 64 * 8 % 2 ^ 64 ≡ 8 * n
index_position base n h k = omega arith

index_test :
    (n size : ℕ) → n < 2 ^ 60 → 8 * n + 8 ≤ size → int64_gt ((8 * n + 8) % 2 ^ 64) size ≡ false
index_test n size h k = ground arith

module _ (crc : List ℕ → ℕ) where
  -- The record of an entry at an offset, as Read returns it.
  abbrev pub record_of : ℕ → Entry → Record
  record_of offset e = record {
    magic = magic_byte;
    offset = offset;
    timestamp = e.timestamp;
    key = e.key;
    value = e.value;
    checksum = crc (covered_layout offset e);
  }

module _ (crc : List ℕ → ℕ) (crc_fits : (bytes : List ℕ) → crc bytes < 2 ^ 32) where
  -- With a checksum of 32 bits, the record of an entry that fits, whatever bytes follow it, is read
  -- back with its offset, timestamp, key, value and checksum.
  pub read_record-layout :
      (offset : ℕ) (e : Entry) (rest : List ℕ)
      → offset < 2 ^ 64
      → EntryFits e
      → read_record crc (record_layout crc offset e ++ rest) ≡ ok (record_of crc offset e)
  unfolding read_record uint
  read_record-layout offset e rest fits h =
      let x = length e.key in
      let y = length e.value in
      let c = crc (covered_layout offset e) in
      let h3 = put_uint 4 y ++ [] in
      let h2 = put_uint 4 x ++ h3 in
      let h1 = put_uint 8 e.timestamp ++ h2 in
      let h0 = put_uint 8 offset ++ h1 in
      let s3 = put_uint 4 c ++ rest in
      let s2 = e.value ++ s3 in
      let s1 = e.key ++ s2 in
      let m : List ℕ = magic_byte ∷ [] in
      let a0 = At-start h0 in
      let a1 : At h0 8 h1 = At-uint 8 offset 8 h1 a0 refl in
      let a2 : At h0 16 h2 = At-uint 8 e.timestamp 16 h2 a1 refl in
      let a3 : At h0 20 h3 = At-uint 4 x 20 h3 a2 refl in
      let split : record_layout crc offset e ++ rest ≡ m ++ (h0 ++ s1) =
        rw (mod-eq_of_lt h.key_fits, mod-eq_of_lt h.value_fits) (simp append_assoc) in
      ap (read_record crc) split
      ∙ read_full_passes 1 m (h0 ++ s1) _ refl
      ∙ read_full_passes 24 h0 s1 _ (omega sizes)
      ∙ read_uint_passes 8 offset 8 h1 _ a0 refl fits
      ∙ read_uint_passes 8 e.timestamp 16 h2 _ a1 refl h.timestamp_fits
      ∙ read_uint_passes 4 x 20 h3 _ a2 refl h.key_fits
      ∙ read_uint_passes 4 y 24 [] _ a3 refl h.value_fits
      ∙ read_full_passes x e.key s2 _ refl
      ∙ read_full_passes y e.value s3 _ refl
      ∙ read_full_passes 4 (put_uint 4 c) rest _ (omega sizes)
      ∙ rw (crc_buffer_fits offset e h, uint-put_uint_fits 4 c (crc_fits _), ==-refl c)

  -- With a checksum of 32 bits: in a segment in order, the offset of an entry reads as that entry.
  pub read_segment-Holds :
      (seg : Segment) (front back : List Entry) (e : Entry)
      → Holds crc seg (front ++ (e ∷ back))
      → read_segment crc seg (seg.base_offset + length front)
        ≡ ok (record_of crc (seg.base_offset + length front) e)
  unfolding read_segment
  read_segment-Holds seg front back e h =
      let n = length front in
      let base = seg.base_offset in
      let pos = log_size front in
      let size = length-append front (e ∷ back) in
      let total = log_size-append front (e ∷ back) in
      let fits : n < 2 ^ 60 = omega (arith, h.offsets_fit, size) in
      let entry = record_layout crc (base + n) e in
      let index_split : seg.index
          ≡ positions 0 front
            ++ (put_uint 8 pos ++ (positions (pos + record_size e) back ++ h.idx_spare)) =
        h.index_is ∙ positions-at front back e h.idx_spare in
      let log_split : seg.log
          ≡ records crc base front ++ (entry ++ (records crc (base + n + 1) back ++ h.spare)) =
        h.log_is ∙ records-at crc base front back e h.spare in
      rw
        (
          index_position base n fits (omega (arith, h.offsets_fit)),
          index_test n seg.idx_size fits (omega (arith, h.idx_size_is, size)),
          index_split,
          log_split,
          seek_at (positions 0 front) _ (8 * n) (sym (length-positions 0 front)) (omega arith),
        )
        (read_full_passes 8 (put_uint 8 pos) _ _ (omega sizes)
          ∙ rw
              (
                uint-put_uint_fits 8 pos (omega (arith, h.log_fits, total)),
                seek_at (records crc base front) _ pos (sym (length-records crc base front))
                    (omega (arith, h.log_fits, total)),
              )
              (read_record-layout (base + n) e _ (omega (arith, h.offsets_fit, size))
                (All-at EntryFits front back e h.entries_fit)))
