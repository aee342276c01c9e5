-- ===== src/Wal/Recovery/Steps.antt =====
-- pkg/wal/wal.go, verifyOrRebuildIndex: one step of the scan, at a record of the log.
use native.Mathlib.Nat.{mod-eq_of_lt, zero-add, suc-add}
use tumbleweed.Base.{
  ℕ, zero, suc, ◌+◌, ◌*◌, ◌^◌, ◌≤◌, ◌<◌, ◌≡◌, refl, sym, ap, ◌∙◌, ◌⊎◌, inl, inr, List, [], ◌∷◌,
  ◌++◌, Bool, true, false, Bool-cases, length, length-take, length-drop, take, drop, All,
  append_assoc, append-nil, ltb, le→leb, ◌==◌, ok, arith,
}
use tumbleweed.Bytes.{put_uint, uint, IsByte, put_uint-uint}
use tumbleweed.Bytes.Cursor.{At, At-start, At-uint, read_uint_passes}
use tumbleweed.Bytes.Stream.{read_full}
use tumbleweed.Wal.Encoding.{magic_byte}
use tumbleweed.Wal.Encoding.Layout.{Entry, EntryFits, record_layout, covered_layout}
use tumbleweed.Wal.SegmentFile.{Segment}
use tumbleweed.Wal.SegmentFile.Holds.{positions, record_size}
use tumbleweed.Wal.Recovery.{RecoveryCall, Scan, record_step, index_agrees}

-- a disk on which every system call succeeds
abbrev pub healthy : RecoveryCall → Bool
healthy c = true

-- The record's size does not wrap.
abbrev pub IsSmall : Entry → Type 0
IsSmall e = EntryFits e × (record_size e < 2 ^ 32)

-- What the scan finds behind the last record and cuts off: less than a header, or bytes that do not begin
-- as a record. A record that a crash has cut off behind its header is not such a tail.
abbrev pub IsTorn : List ℕ → Type 0
IsTorn spare =
    (length spare < 25)
    ⊎ ((m : ℕ) × (rest : List ℕ) × (spare ≡ m ∷ rest) × ((m == magic_byte) ≡ false))

-- the header of a record behind the magic byte, and what follows the header
abbrev pub header_bytes : ℕ → Entry → List ℕ
header_bytes offset e =
    put_uint 8 offset
    ++ (put_uint 8 e.timestamp
        ++ (put_uint 4 (length e.key) ++ (put_uint 4 (length e.value) ++ [])))

module _ (crc : List ℕ → ℕ) (offset : ℕ) (e : Entry) (h : IsSmall e) where
  abbrev pub body_bytes : List ℕ
  body_bytes = e.key ++ (e.value ++ put_uint 4 (crc (covered_layout offset e)))

  pub record_split :
      (rest : List ℕ)
      → record_layout crc offset e ++ rest
        ≡ magic_byte ∷ (header_bytes offset e ++ (body_bytes ++ rest))
  record_split rest =
      rw (mod-eq_of_lt h.0.key_fits, mod-eq_of_lt h.0.value_fits) (simp (append_assoc, append-nil))

  -- The size of the record is read from its lengths, wherever they stand.
  pub record_step-At :
      (b : List ℕ) (i : ℕ)
      → At b i (put_uint 4 (length e.key) ++ (put_uint 4 (length e.value) ++ []))
      → record_step b i ≡ ok (record_size e)
  unfolding record_step
  record_step-At b i a =
      read_uint_passes 4 (length e.key) (i + 4) (put_uint 4 (length e.value) ++ []) _ a refl
        h.0.key_fits
      ∙ read_uint_passes 4 (length e.value) (i + 8) [] _
          (At-uint 4 (length e.key) (i + 4) (put_uint 4 (length e.value) ++ []) a refl)
          (omega arith) h.0.value_fits
      ∙ ap ok (mod-eq_of_lt h.1)

  pub record_step-header : record_step (header_bytes offset e) 16 ≡ ok (record_size e)
  record_step-header = record_step-At (header_bytes offset e) 16 (
      At-uint 8 e.timestamp 16 _ (At-uint 8 offset 8 _ (At-start (header_bytes offset e)) refl)
        refl)

  pub record_step-magic : record_step (magic_byte ∷ header_bytes offset e) 17 ≡ ok (record_size e)
  record_step-magic = record_step-At (magic_byte ∷ header_bytes offset e) 17 (
      At-uint 8 e.timestamp 17 _
        (At-uint 8 offset 9 _ (record { before = magic_byte ∷ []; split = refl; here = refl }) refl)
        refl)

abbrev pub at_pos : ℕ → ℕ → Bool → Scan
at_pos pos n rebuild = record { log_pos = pos; records = n; rebuild = rebuild }

-- The index has the positions of `es` from its entry `n` on.
abbrev pub Indexed : Segment → ℕ → ℕ → List Entry → Type 0
Indexed seg pos n es =
    drop (n * 8) seg.index ≡ positions pos es ++ drop ((n + length es) * 8) seg.index

-- The index file is as long as its size says, and holds bytes.
pub record Opened (seg : Segment) : Type 0 where
  pub size_is : seg.size ≡ length seg.log
  pub idx_size_is : seg.idx_size ≡ length seg.index
  pub idx_bytes : All IsByte seg.index

drop-nil : (m : ℕ) → drop {A = ℕ} m [] ≡ []
drop-nil zero = refl
drop-nil (suc m) = refl

pub drop-drop : (n m : ℕ) (xs : List ℕ) → drop (n + m) xs ≡ drop m (drop n xs)
drop-drop zero m xs = rw zero-add
drop-drop (suc n) m [] = rw suc-add (sym (drop-nil m))
drop-drop (suc n) m (x ∷ xs) = rw suc-add (drop-drop n m xs)

All-drop : (n : ℕ) (xs : List ℕ) → All IsByte xs → All IsByte (drop n xs)
All-drop zero xs h = h
All-drop (suc n) [] h = tt
All-drop (suc n) (x ∷ xs) h = All-drop n xs h.1

take-drop : (n : ℕ) (xs : List ℕ) → take n xs ++ drop n xs ≡ xs
take-drop zero xs = refl
take-drop (suc n) [] = refl
take-drop (suc n) (x ∷ xs) = ap (λ t. x ∷ t) (take-drop n xs)

All-take : (n : ℕ) (xs : List ℕ) → All IsByte xs → All IsByte (take n xs)
All-take zero xs h = tt
All-take (suc n) [] h = tt
All-take (suc n) (x ∷ xs) h = (h.0, All-take n xs h.1)

-- Eight bytes that read as a number are that number's bytes.
pub eight_bytes :
    (xs : List ℕ) (v : ℕ)
    → All IsByte xs
    → 8 ≤ length xs
    → uint (take 8 xs) ≡ v
    → xs ≡ put_uint 8 v ++ drop 8 xs
eight_bytes xs v bytes h e =
    let front = take 8 xs in
    let size : length front ≡ 8 = omega (arith, length-take 8 xs) in
    sym (take-drop 8 xs)
    ∙ ap (λ t. t ++ drop 8 xs)
        (sym (put_uint-uint front (All-take 8 xs bytes))
          ∙ ap (λ n. put_uint n (uint front)) size
          ∙ ap (put_uint 8) e)

ltb-false→le : (a b : ℕ) → ltb a b ≡ false → b ≤ a
ltb-false→le a b h = ground arith

-- The test on the index: where it agrees, the index has the position.
pub index_agrees-lem :
    (seg : Segment) (s : Scan)
    → Opened seg
    → (b : Bool) × (index_agrees healthy seg s ≡ ok b)
      × (b ≡ true
          → drop (s.records * 8) seg.index
            ≡ put_uint 8 s.log_pos ++ drop ((s.records + 1) * 8) seg.index)
unfolding index_agrees read_full
index_agrees-lem seg s o =
    let at = s.records * 8 in
    let xs = drop at seg.index in
    elim (Bool-cases (ltb seg.idx_size (at + 8))) [
      | inl short ↦ (false, rw short refl, λ h. absurd (cc))
      | inr long ↦
          let enough : 8 ≤ length xs = omega (
            arith,
            length-drop at seg.index,
            o.idx_size_is,
            ltb-false→le seg.idx_size (at + 8) long,
          ) in
          (
            uint (take 8 xs) == s.log_pos,
            rw (long, le→leb 8 (length xs) enough) refl,
            λ same.
                eight_bytes xs s.log_pos (All-drop at seg.index o.idx_bytes) enough
                  (ground (arith, same))
                ∙ ap (λ t. put_uint 8 s.log_pos ++ t)
                    (sym (drop-drop at 8 seg.index) ∙ ap (λ n. drop n seg.index) (omega arith)),
          )
    ]
