-- ===== src/Bytes.antt =====
-- Byte slices, as the Go code uses them: `make([]byte, n)`, `b[i:j]`, `copy(b[i:j], s)`, and the
-- numbers of encoding/binary. A byte is a number below 256. An index out of range panics, as in Go;
-- the slices of the program have no spare capacity, so the length is the bound.
mod BigEndian
pub mod Buffer
pub mod Cursor
pub mod Ensures
pub mod Codec
pub mod Stream
unfoldable pub use BigEndian.*
use tumbleweed.Base.{
  ℕ, ◌+◌, ◌-◌, List, ◌++◌, ◌&&◌, length, take, drop, replicate, leb, if◌then◌else◌, Bool, Result,
  ok, err, panics, ◌>>=◌,
}

abbrev pub make : ℕ → List ℕ
make n = replicate n 0

abbrev pub in_range : ℕ → ℕ → List ℕ → Bool
in_range i j b = leb i j && leb j (length b)

-- `b[i:j]`
unfoldable pub slice : List ℕ → ℕ → ℕ → Result (List ℕ)
slice b i j = if in_range i j b then ok (take (j - i) (drop i b)) else err panics

-- `copy(b[i:j], s)`: the buffer afterwards
unfoldable pub copy : List ℕ → ℕ → ℕ → List ℕ → Result (List ℕ)
copy b i j s =
    let part = take (j - i) s in
    if in_range i j b then ok (take i b ++ (part ++ drop (i + length part) b)) else err panics

-- `binary.BigEndian.PutUint(b[i:j], v)` for a number of `n` bytes
unfoldable pub write_uint : ℕ → List ℕ → ℕ → ℕ → ℕ → Result (List ℕ)
write_uint n b i j v = if leb (i + n) j then copy b i j (put_uint n v) else err panics

-- `binary.BigEndian.Uint(b[i:j])` for a number of `n` bytes
unfoldable pub read_uint : ℕ → List ℕ → ℕ → ℕ → Result ℕ
read_uint n b i j = do
  s ← slice b i j
  if leb n (length s) then ok (uint (take n s)) else err panics
