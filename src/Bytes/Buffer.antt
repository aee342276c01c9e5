-- ===== src/Bytes/Buffer.antt =====
-- Filling a fresh buffer from the front: each write extends the part that is written.
use tumbleweed.Base.{
  ℕ, zero, suc, ◌+◌, ◌-◌, ◌≤◌, ◌≡◌, ap, List, [], ◌∷◌, ◌++◌, length, length-append,
  length-replicate, take, drop, take-append, drop-append, append_assoc, append-nil, le→leb, true,
  Result, ok, ◌>>=◌, arith,
}
use native.Mathlib.Nat.{zero-add, suc-add}
use tumbleweed.Bytes.BigEndian.{put_uint, length-put_uint}
use tumbleweed.Bytes.{make, in_range, copy, write_uint}

pub length_bytes-append : (xs ys : List ℕ) → length (xs ++ ys) ≡ length xs + length ys
length_bytes-append xs ys = length-append xs ys

pub length-make : (n : ℕ) → length (make n) ≡ n
length-make n = length-replicate n 0

-- What `omega` needs to compare the sizes of buffers.
pub ruleset sizes = (arith, length_bytes-append, length-make, length-put_uint)

pub take_whole : (s : List ℕ) (n : ℕ) → n ≡ length s → take n s ≡ s
take_whole s n e = rw e (rw append-nil at (take-append s []))

pub drop_past :
    (pre mid post : List ℕ) (n : ℕ)
    → n ≡ length pre + length mid
    → drop n (pre ++ (mid ++ post)) ≡ post
drop_past pre mid post n e =
    rw (e, ← length_bytes-append pre mid, ← append_assoc pre mid post)
      (drop-append (pre ++ mid) post)

pub in_range-true : (i j : ℕ) (b : List ℕ) → i ≤ j → j ≤ length b → in_range i j b ≡ true
in_range-true i j b h k = rw (le→leb i j h, le→leb j (length b) k)

make-add : (m n : ℕ) → make (m + n) ≡ make m ++ make n
make-add zero n = rw zero-add
make-add (suc m) n = rw (suc-add m n) (ap (λ t. 0 ∷ t) (make-add m n))

-- A write of as many bytes as it replaces.
pub copy_replaces :
    (pre old post s : List ℕ) (i j : ℕ)
    → length old ≡ length s
    → i ≡ length pre
    → j ≡ i + length s
    → copy (pre ++ (old ++ post)) i j s ≡ ok (pre ++ (s ++ post))
unfolding copy
copy_replaces pre old post s i j ho hi hj = rw (
  in_range-true i j (pre ++ (old ++ post)) (omega arith)
      (omega (sizes, length_bytes-append pre (old ++ post), length_bytes-append old post)),
  take_whole s (j - i) (omega arith),
  drop_past pre old post (i + length s) (omega arith),
  hi,
  take-append pre (old ++ post),
)

module _ {ℓ} {A : Type ℓ} (pre s : List ℕ) (i j n k : ℕ) (f : List ℕ → Result A) where
  pub copy_fill :
      (i ≡ length pre) × (j ≡ i + length s) × (n ≡ length s + k)
      → (copy (pre ++ make n) i j s >>= f) ≡ f ((pre ++ s) ++ make k)
  unfolding copy
  copy_fill (hi, hj, hn) =
      rw (hn, make-add (length s) k)
        (rw (copy_replaces pre (make (length s)) (make k) s i j (omega sizes) hi hj)
          (rw append_assoc))

module _ {ℓ} {A : Type ℓ} (pre : List ℕ) (w v i j n k : ℕ) (f : List ℕ → Result A) where
  pub write_uint_fill :
      (i ≡ length pre) × (j ≡ i + w) × (n ≡ w + k)
      → (write_uint w (pre ++ make n) i j v >>= f) ≡ f ((pre ++ put_uint w v) ++ make k)
  unfolding write_uint
  write_uint_fill (hi, hj, hn) =
      rw (le→leb (i + w) j (omega arith))
        (copy_fill pre (put_uint w v) i j n k f (hi, omega (sizes, hj), omega (sizes, hn)))
