-- ===== src/Wal/Encoding/Layout.antt =====
-- pkg/wal/wal.go: what the bytes of a record are.
use tumbleweed.Base.{
  ℕ, ◌+◌, ◌%◌, ◌^◌, ◌<◌, ◌≡◌, refl, ap, ◌∙◌, List, [], ◌∷◌, ◌++◌, length, append_assoc, append-nil,
  ok, arith,
}
use tumbleweed.Bytes.{make, put_uint, length-put_uint}
use tumbleweed.Bytes.Buffer.{sizes, length_bytes-append, copy_fill, write_uint_fill}
use tumbleweed.Bytes.Cursor.{At-start, slice_passes}
use tumbleweed.Wal.Encoding.{magic_byte, fill_record, encode_record, crc_buffer}

-- What a producer hands over, with the time at which it is appended.
pub record Entry : Type 0 where
  pub timestamp : ℕ
  pub key : List ℕ
  pub value : List ℕ

pub record EntryFits (e : Entry) : Type 0 where
  pub timestamp_fits : e.timestamp < 2 ^ 64
  pub key_fits : length e.key < 2 ^ 32
  pub value_fits : length e.value < 2 ^ 32

-- The header of a record, and then `tail`.
abbrev pub header_layout : ℕ → Entry → List ℕ → List ℕ
header_layout offset e tail =
    put_uint 8 offset
    ++ (put_uint 8 e.timestamp
        ++ (put_uint 4 (length e.key % 2 ^ 32) ++ (put_uint 4 (length e.value % 2 ^ 32) ++ tail)))

-- The bytes that the checksum covers.
abbrev pub covered_layout : ℕ → Entry → List ℕ
covered_layout offset e = magic_byte ∷ header_layout offset e (e.key ++ e.value)

grow : (pre s : List ℕ) {n m : ℕ} → length pre ≡ n → length s ≡ m → length (pre ++ s) ≡ n + m
grow pre s p q = omega (arith, length_bytes-append pre s)

pub fill_record-layout :
    (offset n k : ℕ) (e : Entry)
    → n ≡ 25 + length e.key + length e.value + k
    → fill_record
        (make n)
        offset
        e.timestamp
        (length e.key % 2 ^ 32)
        (length e.value % 2 ^ 32)
        e.key
        e.value
      ≡ ok (covered_layout offset e ++ make k)
unfolding fill_record
fill_record-layout offset n k e h =
    let x = length e.key in
    let y = length e.value in
    let b1 : List ℕ = magic_byte ∷ [] in
    let b2 = b1 ++ put_uint 8 offset in
    let b3 = b2 ++ put_uint 8 e.timestamp in
    let b4 = b3 ++ put_uint 4 (x % 2 ^ 32) in
    let b5 = b4 ++ put_uint 4 (y % 2 ^ 32) in
    let b6 = b5 ++ e.key in
    let l2 : length b2 ≡ 9 = grow b1 _ refl (length-put_uint 8 offset) in
    let l3 : length b3 ≡ 17 = grow b2 _ l2 (length-put_uint 8 e.timestamp) in
    let l4 : length b4 ≡ 21 = grow b3 _ l3 (length-put_uint 4 (x % 2 ^ 32)) in
    let l5 : length b5 ≡ 25 = grow b4 _ l4 (length-put_uint 4 (y % 2 ^ 32)) in
    let l6 : length b6 ≡ 25 + x = grow b5 e.key l5 refl in
    copy_fill [] b1 0 1 n (8 + 8 + 4 + 4 + x + y + k) _ (omega arith)
    ∙ write_uint_fill b1 8 offset 1 9 _ (8 + 4 + 4 + x + y + k) _ (omega arith)
    ∙ write_uint_fill b2 8 e.timestamp 9 17 _ (4 + 4 + x + y + k) _ (omega (arith, l2))
    ∙ write_uint_fill b3 4 (x % 2 ^ 32) 17 21 _ (4 + x + y + k) _ (omega (arith, l3))
    ∙ write_uint_fill b4 4 (y % 2 ^ 32) 21 25 _ (x + y + k) _ (omega (arith, l4))
    ∙ copy_fill b5 e.key 25 (25 + x) _ (y + k) _ (omega (arith, l5))
    ∙ copy_fill b6 e.value (25 + x) (25 + x + y) _ k ok (omega (arith, l6))
    ∙ ap ok (simp append_assoc)

pub length-covered :
    (offset : ℕ) (e : Entry) → length (covered_layout offset e) ≡ 25 + length e.key + length e.value
length-covered offset e = omega sizes

pub crc_buffer-layout :
    (offset : ℕ) (e : Entry)
    → crc_buffer offset e.timestamp (length e.key % 2 ^ 32) (length e.value % 2 ^ 32) e.key e.value
      ≡ ok (covered_layout offset e)
unfolding crc_buffer
crc_buffer-layout offset e =
    fill_record-layout offset (1 + 24 + length e.key + length e.value) 0 e (omega arith)
    ∙ ap ok (append-nil (covered_layout offset e))

module _ (crc : List ℕ → ℕ) where
  -- A record on disk: the bytes that the checksum covers, and the checksum.
  abbrev pub record_layout : ℕ → Entry → List ℕ
  record_layout offset e = covered_layout offset e ++ put_uint 4 (crc (covered_layout offset e))

  pub encode_record-layout :
      (offset : ℕ) (e : Entry)
      → encode_record crc offset e.timestamp e.key e.value ≡ ok (record_layout offset e)
  unfolding encode_record
  encode_record-layout offset e =
      let x = length e.key in
      let y = length e.value in
      let c = covered_layout offset e in
      rw (fill_record-layout offset (1 + 8 + 8 + 4 + 4 + x + y + 4) 4 e (omega arith)) (
        slice_passes c (make 4) (25 + x + y) _ (At-start (c ++ make 4))
          (omega (sizes, length-covered offset e))
        ∙ write_uint_fill c 4 (crc c) (25 + x + y) (25 + x + y + 4) 4 0 ok
            (omega (sizes, length-covered offset e))
        ∙ ap ok (append-nil (c ++ put_uint 4 (crc c))))
