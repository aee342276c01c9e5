-- ===== src/Wal/SegmentFile.antt =====
-- pkg/wal/wal.go: a segment, the part of Read that works on one, and the part of Append that writes
-- to the active one. `log` and `index` are the contents of the segment's two files; sizes are those
-- kept in memory. File sizes are far below 2 ^ 63, so an int64 size is a number.
pub mod Holds
pub mod Read
pub mod Append
use tumbleweed.Base.{
  ℕ, ◌+◌, ◌-◌, ◌*◌, ◌%◌, ◌^◌, List, ◌++◌, Bool, not, ◌&&◌, length, take, drop, ltb, leb, ◌==◌,
  if◌then◌else◌, Result, ok, err, io, record_corrupt, offset_not_found, ◌>>=◌,
}
use tumbleweed.Bytes.{make, read_uint, uint, put_uint}
use tumbleweed.Bytes.Stream.{read_full}
use tumbleweed.Wal.Encoding.{Record, magic_byte, crc_buffer}

pub record Segment : Type 0 where
  pub base_offset : ℕ
  pub log : List ℕ
  pub index : List ℕ
  pub size : ℕ
  pub idx_size : ℕ

-- A file after a write at `pos`. A write behind the end leaves zeros between.
unfoldable pub write_at : List ℕ → ℕ → List ℕ → List ℕ
write_at file pos bytes =
    take pos (file ++ make (pos - length file)) ++ (bytes ++ drop (pos + length bytes) file)

-- An int64 whose bit pattern is `x` is negative.
abbrev pub is_negative : ℕ → Bool
is_negative x = leb (2 ^ 63) x

-- `a > b` on int64, where `b` is a size
abbrev pub int64_gt : ℕ → ℕ → Bool
int64_gt a b = not (is_negative a) && ltb b a

-- Seek to an int64 and read on from there; a negative position is an error.
unfoldable pub seek : List ℕ → ℕ → Result (List ℕ)
seek file pos = if is_negative pos then err io else ok (drop pos file)

module _ (crc : List ℕ → ℕ) where
  -- Read, from the record's first byte on
  unfoldable pub read_record : List ℕ → Result Record
  read_record stream = do
    (magic, stream) ← read_full 1 stream
    if not (uint magic == magic_byte) then err record_corrupt else do
      (header, stream) ← read_full 24 stream
      rec_offset ← read_uint 8 header 0 8
      timestamp ← read_uint 8 header 8 16
      key_len ← read_uint 4 header 16 20
      value_len ← read_uint 4 header 20 24
      (key, stream) ← read_full key_len stream
      (value, stream) ← read_full value_len stream
      (crc_buf, stream) ← read_full 4 stream
      let checksum = uint crc_buf
      covered ← crc_buffer rec_offset timestamp key_len value_len key value
      if not (checksum == crc covered)
          then err record_corrupt
          else ok (record {
            magic = magic_byte;
            offset = rec_offset;
            timestamp = timestamp;
            key = key;
            value = value;
            checksum = checksum;
          })

  -- Read, once the segment is found
  unfoldable pub read_segment : Segment → ℕ → Result Record
  read_segment seg offset = do
    let idx_offset = (offset + 2 ^ 64 - seg.base_offset) % 2 ^ 64 * 8 % 2 ^ 64
    if int64_gt ((idx_offset + 8) % 2 ^ 64) seg.idx_size then err offset_not_found else do
      index ← seek seg.index idx_offset
      (pos_buf, _) ← read_full 8 index
      stream ← seek seg.log (uint pos_buf)
      read_record stream

-- The system calls of Append and roll.
pub data Call : Type 0 where
  roll_log_sync roll_idx_sync open_files : Call
  log_seek log_write idx_seek idx_write log_sync idx_sync : Call

-- Which system calls of an append succeed, and how many bytes a failed write leaves in the file.
pub record Disk : Type 0 where
  pub succeeds : Call → Bool
  pub leaves : Call → ℕ

-- Append, from the write to the log file to the update of the sizes
unfoldable pub write_segment : Disk → Segment → List ℕ → Segment × Result (Unit {0})
write_segment disk seg buf =
    let log_pos = seg.size in
    let pos_buf = put_uint 8 log_pos in
    let written = record seg { log = write_at seg.log log_pos buf } in
    if not (disk.succeeds log_seek)
    then (seg, err io)
    else if not (disk.succeeds log_write)
    then (record seg { log = write_at seg.log log_pos (take (disk.leaves log_write) buf) }, err io)
    else if not (disk.succeeds idx_seek)
    then (written, err io)
    else if not (disk.succeeds idx_write)
    then (
      record written {
        index = write_at seg.index seg.idx_size (take (disk.leaves idx_write) pos_buf);
      },
      err io,
    )
    else (
      record written {
        index = write_at seg.index seg.idx_size pos_buf;
        size = seg.size + length buf;
        idx_size = seg.idx_size + 8;
      },
      ok tt,
    )
