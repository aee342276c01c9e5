-- ===== src/Bytes/Ensures.antt =====
-- Decoders on any input: for each step of a decoder a rule for "what it returns has the property
-- `P`, and it fails with "malformed" only".
use tumbleweed.Base.{
  ℕ, zero, suc, ◌+◌, ◌^◌, ◌≤◌, ◌<◌, ◌≡◌, refl, sym, List, [], ◌∷◌, ◌++◌, length, length-take, take,
  drop, All, le→leb, ltb, if◌then◌else◌, Result, ok, err, malformed, ◌>>=◌, arith, Bool-cases, inl,
  inr,
}
use tumbleweed.Bytes.BigEndian.{IsByte, put_uint, put_uint-uint, uint, uint-lt}
use tumbleweed.Bytes.Buffer.{take_whole}
use tumbleweed.Bytes.Cursor.{At, At-start, At-next, slice-At, length-At}
use tumbleweed.Bytes.{slice, read_uint}

-- A returned value satisfies `P`, and the only failure is the error "malformed …": no panic.
abbrev pub Ensures {ℓ} : {A : Type ℓ} → (A → Type 0) → Result A → Type 0
Ensures P (ok a) = P a
Ensures P (err malformed) = Unit {0}
Ensures P (err e) = ⊥

take-append-drop {ℓ} : {A : Type ℓ} (n : ℕ) (xs : List A) → take n xs ++ drop n xs ≡ xs
take-append-drop zero xs = refl
take-append-drop (suc n) [] = refl
take-append-drop (suc n) (x ∷ xs) = rw (take-append-drop n xs)

pub All-front : (P : ℕ → Type 0) (xs ys : List ℕ) → All P (xs ++ ys) → All P xs × All P ys
All-front P [] ys h = (tt, h)
All-front P (x ∷ xs) ys h = let (f, g) = All-front P xs ys h.1 in ((h.0, f), g)

-- A cursor over bytes.
pub record Bytes (b : List ℕ) (i : ℕ) (rest : List ℕ) : Type 0 where
  pub at : At b i rest
  pub bytes : All IsByte rest

pub Bytes-start : (b : List ℕ) → All IsByte b → Bytes b 0 b
Bytes-start b h = record { at = At-start b; bytes = h }

module _ {ℓ} {A : Type ℓ} (P : A → Type 0) where
  -- `if len(b) < n { return nil, errors.New("malformed …") }`
  pub check-Ensures :
      (a n : ℕ) (m : Result A)
      → (n ≤ a → Ensures P m)
      → Ensures P (if ltb a n then err malformed else m)
  check-Ensures a n m h = elim (Bool-cases (ltb a n)) [
    | inl e ↦ rw e tt
    | inr e ↦ rw e (h (ground arith))
  ]

  pub slice-Ensures :
      {b rest : List ℕ} {i : ℕ} (n j : ℕ) (f : List ℕ → Result A)
      → Bytes b i rest
      → j ≡ i + n
      → j ≤ length b
      → ((s more : List ℕ) → rest ≡ s ++ more → length s ≡ n → Bytes b j more → Ensures P (f s))
      → Ensures P (slice b i j >>= f)
  slice-Ensures {b} {rest} {i} n j f c q h k =
      let s = take n rest in
      let more = drop n rest in
      let split : rest ≡ s ++ more = sym (take-append-drop n rest) in
      let size : length s ≡ n = omega (arith, length-take n rest, length-At c.at) in
      let a' : At b i (s ++ more) = rw (take-append-drop n rest) c.at in
      let e : j ≡ i + length s = rw size q in
      let (front, back) = All-front IsByte s more (rw (take-append-drop n rest) c.bytes) in
      rw (slice-At s more j a' e)
        (k s more split size (record { at = At-next s more j a' e; bytes = back }))

  pub read_uint-Ensures :
      {b rest : List ℕ} {i : ℕ} (w j : ℕ) (f : ℕ → Result A)
      → Bytes b i rest
      → j ≡ i + w
      → j ≤ length b
      → ((v : ℕ) (more : List ℕ)
          → rest ≡ put_uint w v ++ more
          → v < 256 ^ w
          → Bytes b j more
          → Ensures P (f v))
      → Ensures P (read_uint w b i j >>= f)
  unfolding read_uint
  read_uint-Ensures {b} {rest} {i} w j f c q h k =
      let s = take w rest in
      let more = drop w rest in
      let split : rest ≡ s ++ more = sym (take-append-drop w rest) in
      let size : length s ≡ w = omega (arith, length-take w rest, length-At c.at) in
      let a' : At b i (s ++ more) = rw (take-append-drop w rest) c.at in
      let e : j ≡ i + length s = rw size q in
      let (front, back) = All-front IsByte s more (rw (take-append-drop w rest) c.bytes) in
      let digits : put_uint w (uint s) ≡ s = rw size at (put_uint-uint s front) in
      let small : uint s < 256 ^ w = rw size at (uint-lt s front) in
      rw
        (
          slice-At s more j a' e,
          le→leb w (length s) (omega (arith, size)),
          take_whole s w (sym size),
        )
        (k (uint s) more (rw digits split) small
          (record { at = At-next s more j a' e; bytes = back }))

-- A decoder that calls another.
pub bind-Ensures {ℓ κ} :
    {A : Type ℓ} {B : Type κ} (Q : B → Type 0) (P : A → Type 0) (m : Result B) (f : B → Result A)
    → Ensures Q m
    → ((x : B) → Q x → Ensures P (f x))
    → Ensures P (m >>= f)
bind-Ensures Q P (ok x) f h k = k x h
bind-Ensures Q P (err malformed) f h k = tt
bind-Ensures Q P (err _) f h k = elim h [ ]
