-- ===== src/Wal/Samples.antt =====
-- A checksum and entries for the tests of the log.
use tumbleweed.Base.{ℕ, ◌+◌, ◌%◌, ◌^◌, ◌<◌, List, [], ◌∷◌, arith}
use tumbleweed.Wal.Encoding.Layout.{Entry, EntryFits}

abbrev pub total : List ℕ → ℕ
total [] = 0
total (x ∷ xs) = x + total xs

abbrev pub sum32 : List ℕ → ℕ
sum32 bytes = total bytes % 2 ^ 32

pub sum32_fits : (bytes : List ℕ) → sum32 bytes < 2 ^ 32
sum32_fits bytes = omega arith

abbrev pub first : Entry
first = record { timestamp = 100; key = 1 ∷ []; value = 7 ∷ 8 ∷ [] }

abbrev pub second : Entry
second = record { timestamp = 101; key = []; value = 9 ∷ [] }

pub first_fits : EntryFits first
first_fits = record {
  timestamp_fits = omega arith;
  key_fits = omega arith;
  value_fits = omega arith;
}

pub second_fits : EntryFits second
second_fits = record {
  timestamp_fits = omega arith;
  key_fits = omega arith;
  value_fits = omega arith;
}
