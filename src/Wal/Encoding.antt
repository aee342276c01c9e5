-- ===== src/Wal/Encoding.antt =====
-- pkg/wal/wal.go: the bytes of a record, as Append writes them and Read checks them. The checksum
-- function of hash/crc32 is the parameter `crc`.
pub mod Layout
use tumbleweed.Base.{ℕ, ◌+◌, ◌%◌, ◌^◌, List, [], ◌∷◌, length, Result, ok, ◌>>=◌}
use tumbleweed.Bytes.{make, slice, copy, write_uint}

abbrev pub magic_byte : ℕ
magic_byte = 0x54

-- `timestamp` is the 64-bit pattern of the int64.
pub record Record : Type 0 where
  pub magic : ℕ
  pub offset : ℕ
  pub timestamp : ℕ
  pub key : List ℕ
  pub value : List ℕ
  pub checksum : ℕ

-- The part of a record that the checksum covers, filled into the front of `buf`: in Append and
-- again, with the lengths and numbers that it read, in Read.
unfoldable pub fill_record : List ℕ → ℕ → ℕ → ℕ → ℕ → List ℕ → List ℕ → Result (List ℕ)
fill_record buf offset timestamp key_len value_len key value = do
  buf ← copy buf 0 1 (magic_byte ∷ [])
  buf ← write_uint 8 buf 1 9 offset
  buf ← write_uint 8 buf 9 17 timestamp
  buf ← write_uint 4 buf 17 21 key_len
  buf ← write_uint 4 buf 21 25 value_len
  buf ← copy buf 25 (25 + length key) key
  buf ← copy buf (25 + length key) (25 + length key + length value) value
  ok buf

module _ (crc : List ℕ → ℕ) where
  -- the buffer that Append writes
  unfoldable pub encode_record : ℕ → ℕ → List ℕ → List ℕ → Result (List ℕ)
  encode_record offset timestamp key value = do
    let key_len = length key
    let value_len = length value
    let size = 1 + 8 + 8 + 4 + 4 + key_len + value_len + 4
    buf ← fill_record (make size) offset timestamp (key_len % 2 ^ 32) (value_len % 2 ^ 32) key value
    let crc_idx = 25 + key_len + value_len
    covered ← slice buf 0 crc_idx
    buf ← write_uint 4 buf crc_idx (crc_idx + 4) (crc covered)
    ok buf

-- the buffer over which Read computes the checksum
unfoldable pub crc_buffer : ℕ → ℕ → ℕ → ℕ → List ℕ → List ℕ → Result (List ℕ)
crc_buffer offset timestamp key_len value_len key value =
    fill_record (make (1 + 24 + length key + length value)) offset timestamp key_len value_len key
      value
