-- ===== src/Bytes/Cursor.antt =====
-- Reading a slice from the front: a cursor splits the bytes into those before it and the rest.
use tumbleweed.Base.{
  ℕ, ◌+◌, ◌-◌, ◌^◌, ◌<◌, ◌≡◌, refl, sym, ap, ◌∙◌, List, [], ◌++◌, length, take, take-append,
  drop-append, append_assoc, le→leb, ltb-false, ltb, if◌then◌else◌, ◌≤◌, ◌>>=◌, Result, malformed,
  err, ok, arith,
}
use tumbleweed.Bytes.BigEndian.{put_uint, uint-put_uint_fits}
use tumbleweed.Bytes.Buffer.{sizes, length_bytes-append, in_range-true, take_whole}
use tumbleweed.Bytes.{slice, read_uint}

take_front : (s rest : List ℕ) (n : ℕ) → n ≡ length s → take n (s ++ rest) ≡ s
take_front s rest n e = rw e (take-append s rest)

pub record At (b : List ℕ) (i : ℕ) (rest : List ℕ) : Type 0 where
  pub before : List ℕ
  pub split : b ≡ before ++ rest
  pub here : length before ≡ i

pub At-start : (b : List ℕ) → At b 0 b
At-start b = record { before = []; split = refl; here = refl }

module _ {b : List ℕ} {i : ℕ} where
  pub length-At : {rest : List ℕ} → At b i rest → length b ≡ i + length rest
  length-At {rest} a = omega (sizes, ap (λ (t : List ℕ). length t) a.split, a.here)

  pub At-next : (s rest : List ℕ) (j : ℕ) → At b i (s ++ rest) → j ≡ i + length s → At b j rest
  At-next s rest j a e = record {
    before = a.before ++ s;
    split = a.split ∙ sym (append_assoc a.before s rest);
    here = omega (sizes, e, a.here);
  }

  pub slice-At :
      (s rest : List ℕ) (j : ℕ) → At b i (s ++ rest) → j ≡ i + length s → slice b i j ≡ ok s
  unfolding slice
  slice-At s rest j a e = rw (
    in_range-true i j b (omega arith) (omega (sizes, length-At a, length_bytes-append s rest, e)),
    a.split,
    ← a.here,
    drop-append a.before (s ++ rest),
    take_front s rest (j - length a.before) (omega (arith, a.here, e)),
  )

  pub read_uint-At :
      (w v j : ℕ) (rest : List ℕ)
      → At b i (put_uint w v ++ rest)
      → j ≡ i + w
      → v < 256 ^ w
      → read_uint w b i j ≡ ok v
  unfolding read_uint
  read_uint-At w v j rest a e h = rw (
    slice-At (put_uint w v) rest j a (omega (sizes, e)),
    le→leb w (length (put_uint w v)) (omega sizes),
    take_whole (put_uint w v) w (omega sizes),
    uint-put_uint_fits w v h,
  )

module _ {b : List ℕ} {i : ℕ} where
  pub At-uint :
      (w v j : ℕ) (rest : List ℕ) → At b i (put_uint w v ++ rest) → j ≡ i + w → At b j rest
  At-uint w v j rest a e = At-next (put_uint w v) rest j a (omega (sizes, e))

-- The steps of a decoder that finds what it expects.
module _ {ℓ} {A : Type ℓ} {b : List ℕ} {i : ℕ} where
  pub check_passes :
      (n : ℕ) (rest : List ℕ) (m : Result A)
      → At b i rest
      → n ≤ i + length rest
      → (if ltb (length b) n then err malformed else m) ≡ m
  check_passes n rest m a h = rw (ltb-false (length b) n (omega (arith, length-At a)))

  pub slice_passes :
      (s rest : List ℕ) (j : ℕ) (f : List ℕ → Result A)
      → At b i (s ++ rest)
      → j ≡ i + length s
      → (slice b i j >>= f) ≡ f s
  slice_passes s rest j f a e = rw (slice-At s rest j a e)

  pub read_uint_passes :
      (w v j : ℕ) (rest : List ℕ) (f : ℕ → Result A)
      → At b i (put_uint w v ++ rest)
      → j ≡ i + w
      → v < 256 ^ w
      → (read_uint w b i j >>= f) ≡ f v
  read_uint_passes w v j rest f a e h = rw (read_uint-At w v j rest a e h)
