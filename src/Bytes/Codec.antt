-- ===== src/Bytes/Codec.antt =====
-- What a message type promises: a wire format, an encoder that writes it, and a decoder that reads
-- exactly it. The laws that follow hold for each message.
use tumbleweed.Base.{
  ℕ, ◌≡◌, refl, sym, ap, subst, ◌∙◌, ◌⊎◌, inl, inr, List, [], ◌∷◌, ◌++◌, length, length-append, All,
  Result, ok, err, malformed, ◌>>=◌, arith,
}
use mathlib.Core.Logic.{◌↔◌}
use tumbleweed.Bytes.BigEndian.{IsByte}
use tumbleweed.Bytes.Ensures.{Ensures}

pub record Codec (A : Type 0) : Type 1 where
  -- the bytes of a message, and then `tail`
  pub layout : A → List ℕ → List ℕ
  -- every length fits its field
  pub Sized : A → Type 0
  pub encode : A → Result (List ℕ)
  pub decode : List ℕ → Result A
  pub encode-layout : (a : A) → encode a ≡ ok (layout a [])
  pub layout-append : (a : A) (tail more : List ℕ) → layout a tail ++ more ≡ layout a (tail ++ more)
  pub decode-layout : (a : A) (tail : List ℕ) → Sized a → decode (layout a tail) ≡ ok a
  pub decode_ensures :
      (b : List ℕ)
      → All IsByte b
      → Ensures (λ a. (tail : List ℕ) × (b ≡ layout a tail) × Sized a) (decode b)

ok-injective : {A : Type 0} {a b : A} → ok a ≡ ok b → a ≡ b
ok-injective e = cc

pub Ensures-ok : {A : Type 0} (P : A → Type 0) (m : Result A) {a : A} → Ensures P m → m ≡ ok a → P a
Ensures-ok P (ok x) h e = subst P (ok-injective e) h
Ensures-ok P (err x) h e = cc

pub Ensures-cases :
    {A : Type 0} (P : A → Type 0) (m : Result A)
    → Ensures P m
    → ((a : A) × (m ≡ ok a) × P a) ⊎ (m ≡ err malformed)
Ensures-cases P (ok a) h = inl (a, refl, h)
Ensures-cases P (err malformed) h = inr refl
Ensures-cases P (err _) h = elim h [ ]

module _ {A : Type 0} (c : Codec A) where
  open c use {
    layout, Sized, encode, decode, encode-layout, layout-append, decode-layout, decode_ensures,
  }

  -- What was encoded is decoded.
  pub decode-encode : (a : A) → Sized a → (encode a >>= decode) ≡ ok a
  decode-encode a h = rw (encode-layout a) (decode-layout a [] h)

  -- The decoder accepts exactly the wire format, and ignores what follows it.
  pub decode_exact :
      (b : List ℕ) (a : A)
      → All IsByte b
      → (decode b ≡ ok a) ↔ ((tail : List ℕ) × (b ≡ layout a tail) × Sized a)
  decode_exact b a bytes = (
    Ensures-ok (λ x. (tail : List ℕ) × (b ≡ layout x tail) × Sized x) (decode b)
        (decode_ensures b bytes),
    λ h. rw h.1 (decode-layout a h.0 h.2),
  )

  -- Every proper prefix of a message is refused.
  pub decode_truncated :
      (a : A) (front back : List ℕ) (x : ℕ)
      → Sized a
      → All IsByte front
      → layout a [] ≡ front ++ (x ∷ back)
      → decode front ≡ err malformed
  decode_truncated a front back x h bytes e =
      elim (Ensures-cases (λ y. (tail : List ℕ) × (front ≡ layout y tail) × Sized y) (decode front)
        (decode_ensures front bytes)) [
          | inr refused ↦ refused
          | inl (y, _, (tail, split, fits)) ↦
              let whole : layout a [] ≡ layout y (tail ++ (x ∷ back)) =
                e ∙ ap (λ t. t ++ (x ∷ back)) split ∙ layout-append y tail (x ∷ back) in
              let same : a ≡ y = ok-injective (
                sym (decode-layout a [] h)
                ∙ ap decode whole
                ∙ decode-layout y (tail ++ (x ∷ back)) fits) in
              absurd (
                omega (
                  arith,
                  ap (λ (t : List ℕ). length t) e,
                  ap (λ (t : List ℕ). length t) split,
                  ap (λ (z : A). length (layout z tail)) same,
                  ap (λ (t : List ℕ). length t) (layout-append a [] tail),
                  length-append (layout a []) tail,
                  length-append front (x ∷ back),
                ))
        ]
