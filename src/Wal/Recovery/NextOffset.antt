-- ===== src/Wal/Recovery/NextOffset.antt =====
-- pkg/wal/wal.go, recoverNextOffset on a segment that verifyOrRebuildIndex returned.

use tumbleweed.Base.{
  ℕ, ◌+◌, ◌-◌, ◌*◌, ◌%◌, ◌^◌, ◌<◌, ◌≡◌, refl, sym, ap, subst, ◌∙◌, ◌⊎◌, inl, inr, List, [], ◌∷◌,
  ◌++◌, false, length, length-append, drop, drop-append, All, append_assoc, append-nil, ltb,
  ltb-false, ◌==◌, ok, arith,
}
use tumbleweed.Bytes.{put_uint, uint, uint-put_uint_fits}
use tumbleweed.Bytes.Buffer.{sizes, length_bytes-append}
use tumbleweed.Bytes.Stream.{read_full, read_full-append}
use tumbleweed.Wal.Encoding.{magic_byte}
use tumbleweed.Wal.Encoding.Layout.{Entry, EntryFits, record_layout}
use tumbleweed.Wal.SegmentFile.{seek}
use tumbleweed.Wal.SegmentFile.Holds.{
  Holds, records, positions, log_size, log_size-append, length-records, length-positions,
  last_position, last_record,
}
use tumbleweed.Wal.SegmentFile.Read.{seek_at}
use tumbleweed.Wal.Recovery.{recover_next_offset}
use tumbleweed.Wal.Recovery.Steps.{healthy, IsSmall, body_bytes, record_split}
use tumbleweed.Wal.Recovery.Rebuilt.{whole_segment}

snoc_cases :
    (es : List Entry) → (es ≡ []) ⊎ ((front : List Entry) × (e : Entry) × (es ≡ front ++ (e ∷ [])))
snoc_cases [] = inl refl
snoc_cases (e ∷ es) = elim (snoc_cases es) [
  | inl z ↦ inr ([], e, ap (λ t. e ∷ t) z)
  | inr (front, l, z) ↦ inr (e ∷ front, l, ap (λ t. e ∷ t) z)
]

All-last : (P : Entry → Type 0) (front : List Entry) (e : Entry) → All P (front ++ (e ∷ [])) → P e
All-last P [] e h = h.0
All-last P (x ∷ front) e h = All-last P front e h.1

All-EntryFits : (es : List Entry) → All IsSmall es → All EntryFits es
All-EntryFits [] h = tt
All-EntryFits (e ∷ es) h = (h.0.0, All-EntryFits es h.1)

drop_at :
    (pre post file : List ℕ) (n : ℕ) → file ≡ pre ++ post → n ≡ length pre → drop n file ≡ post
drop_at pre post file n e k = rw (e, k) (drop-append pre post)

log_size_one : (e : Entry) → 1 < log_size (e ∷ [])
unfolding log_size
log_size_one e = omega arith

module _ (crc : List ℕ → ℕ) where
  pub whole_segment-Holds :
      (base : ℕ) (es : List Entry)
      → All IsSmall es
      → base + length es < 2 ^ 60
      → log_size es < 2 ^ 63
      → Holds crc (whole_segment crc base es) es
  whole_segment-Holds base es small offsets size = record {
    spare = [];
    log_is = sym (append-nil (records crc base es));
    size_is = refl;
    idx_spare = [];
    index_is = sym (append-nil (positions 0 es));
    idx_size_is = omega arith;
    entries_fit = All-EntryFits es small;
    offsets_fit = offsets;
    log_fits = size;
  }

  -- The next offset is that behind the last record.
  recover_last :
      (base : ℕ) (front : List Entry) (e : Entry)
      → IsSmall e
      → base + length (front ++ (e ∷ [])) < 2 ^ 60
      → log_size (front ++ (e ∷ [])) < 2 ^ 63
      → recover_next_offset healthy (whole_segment crc base (front ++ (e ∷ [])))
        ≡ ok (base + length (front ++ (e ∷ [])))
  unfolding recover_next_offset
  recover_last base front e small offsets size =
      let n = length front in
      let offset = base + n in
      let pos = log_size front in
      let count : length (front ++ (e ∷ [])) ≡ n + 1 =
        omega (arith, length-append front (e ∷ [])) in
      let more = length (front ++ (e ∷ [])) * 8 in
      let rs = records crc base front in
      let entry = record_layout crc offset e in
      let header =
        put_uint 8 e.timestamp
        ++ (put_uint 4 (length e.key) ++ (put_uint 4 (length e.value) ++ [])) in
      let tail = header ++ (body_bytes crc offset e small ++ []) in
      let index : positions 0 (front ++ (e ∷ [])) ≡ positions 0 front ++ (put_uint 8 pos ++ []) =
        last_position front e
        ∙ ap (λ t. positions 0 front ++ t) (sym (append-nil (put_uint 8 pos))) in
      let there : drop (more - 8) (positions 0 (front ++ (e ∷ []))) ≡ put_uint 8 pos ++ [] =
        drop_at (positions 0 front) _ _ (more - 8) index
          (omega (arith, count, length-positions 0 front)) in
      let log : records crc base (front ++ (e ∷ []))
          ≡ (rs ++ (magic_byte ∷ [])) ++ (put_uint 8 offset ++ tail) =
        last_record crc base front e
        ∙ ap (λ t. rs ++ t) (sym (append-nil entry) ∙ record_split crc offset e small [])
        ∙ simp append_assoc in
      let fits : pos + 1 < 2 ^ 63 =
        omega (arith, size, log_size-append front (e ∷ []), log_size_one e) in
      let sought : seek (records crc base (front ++ (e ∷ []))) ((pos + 1) % 2 ^ 64)
          ≡ ok (put_uint 8 offset ++ tail) =
        ap (λ t. seek t ((pos + 1) % 2 ^ 64)) log
        ∙ seek_at (rs ++ (magic_byte ∷ [])) (put_uint 8 offset ++ tail) ((pos + 1) % 2 ^ 64)
            (omega (
              arith,
              fits,
              length_bytes-append rs (magic_byte ∷ []),
              length-records crc base front,
            ))
            (omega (arith, fits)) in
      let some_records : (more == 0) ≡ false = ground (arith, count) in
      let past_eight : ltb more 8 ≡ false = ltb-false more 8 (omega (arith, count)) in
      let position : uint (put_uint 8 pos) ≡ pos = uint-put_uint_fits 8 pos (omega (arith, fits)) in
      let number : uint (put_uint 8 offset) ≡ offset =
        uint-put_uint_fits 8 offset (omega (arith, offsets, count)) in
      let last_read : read_full 8 (put_uint 8 pos ++ []) ≡ ok (put_uint 8 pos, []) =
        read_full-append 8 (put_uint 8 pos) [] (omega sizes) in
      let offset_read : read_full 8 (put_uint 8 offset ++ tail) ≡ ok (put_uint 8 offset, tail) =
        read_full-append 8 (put_uint 8 offset) tail (omega sizes) in
      rw (some_records, past_eight, there, last_read, position, sought, offset_read, number)
        (ap ok (omega (arith, offsets, count)))

  pub recover_next_offset-whole :
      (base : ℕ) (es : List Entry)
      → All IsSmall es
      → base + length es < 2 ^ 60
      → log_size es < 2 ^ 63
      → recover_next_offset healthy (whole_segment crc base es) ≡ ok (base + length es)
  unfolding recover_next_offset
  recover_next_offset-whole base es small offsets size = elim (snoc_cases es) [
    | inl z ↦
        subst (λ t. recover_next_offset healthy (whole_segment crc base t) ≡ ok (base + length t))
          (sym z) (ap ok (omega arith))
    | inr (front, e, z) ↦
        let P = λ (t : List Entry).
          recover_next_offset healthy (whole_segment crc base t) ≡ ok (base + length t) in
        let count = ap (λ (t : List Entry). length t) z in
        subst P (sym z) (
          recover_last base front e (All-last IsSmall front e (subst (All IsSmall) z small))
            (omega (arith, count)) (subst (λ t. log_size t < 2 ^ 63) z size))
  ]
