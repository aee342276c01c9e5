-- ===== src/Cli/Decimal.antt =====
-- `strconv.ParseUint(s, 10, 64)`, with which cmd/tumbleweed-cli/main.go reads an offset.
use mathlib.Core.Logic.{◌↔◌}
use tumbleweed.Base.{
  ℕ, ◌+◌, ◌-◌, ◌*◌, ◌%◌, ◌^◌, ◌≤◌, ◌<◌, ◌≡◌, ◌≢◌, refl, ◌⊎◌, inl, inr, Option, none, some, List, [],
  ◌∷◌, not, ◌&&◌, All, ltb, leb, Bool, if◌then◌else◌, if_cases, arith,
}

abbrev is_digit : ℕ → Bool
is_digit c = leb 48 c && leb c 57

-- `n` with one digit more: the two bounds are those of the source, on a uint64
unfoldable pub add_digit : ℕ → ℕ → Option ℕ
add_digit n c =
    let m = (n * 10 + (c - 48)) % 2 ^ 64 in
    if not (is_digit c)
    then none
    else if leb 1_844_674_407_370_955_162 n
    then none
    else if ltb m (n * 10)
    then none
    else some m

unfoldable pub parse_digits : ℕ → List ℕ → Option ℕ
parse_digits n [] = some n
parse_digits n (c ∷ s) = elim (add_digit n c) [ none ↦ none | some m ↦ parse_digits m s ]

unfoldable pub parse_uint : List ℕ → Option ℕ
parse_uint [] = none
parse_uint (c ∷ s) = parse_digits 0 (c ∷ s)

abbrev IsDigit : ℕ → Type 0
IsDigit c = (48 ≤ c) × (c ≤ 57)

abbrev digits_value : ℕ → List ℕ → ℕ
digits_value n [] = n
digits_value n (c ∷ s) = digits_value (n * 10 + (c - 48)) s

-- The text is a number in decimal, of 64 bits.
pub record IsDecimal (s : List ℕ) (n : ℕ) : Type 0 where
  pub some_digit : s ≢ []
  pub digits : All IsDigit s
  pub value : digits_value 0 s ≡ n
  pub fits : n < 2 ^ 64

-- Digits behind a number do not make it smaller.
grows : (n : ℕ) (s : List ℕ) → n ≤ digits_value n s
grows n [] = omega arith
grows n (c ∷ s) = omega (arith, grows (n * 10 + (c - 48)) s)

add_digit-some :
    (n c : ℕ) → IsDigit c → n * 10 + (c - 48) < 2 ^ 64 → add_digit n c ≡ some (n * 10 + (c - 48))
unfolding add_digit
add_digit-some n c (low, high) fits = ground (arith, low, high, fits)

add_digit-cases : (n c : ℕ) → (add_digit n c ≡ none) ⊎ (IsDigit c × (n * 10 + (c - 48) < 2 ^ 64))
unfolding add_digit
add_digit-cases n c =
    let m = (n * 10 + (c - 48)) % 2 ^ 64 in
    let P = λ (r : Option ℕ). (r ≡ none) ⊎ (IsDigit c × (n * 10 + (c - 48) < 2 ^ 64)) in
    if_cases P (not (is_digit c)) _ _ (λ _. inl refl)
      (λ digit.
        if_cases P (leb 1_844_674_407_370_955_162 n) _ _ (λ _. inl refl)
          (λ small.
            if_cases P (ltb m (n * 10)) _ _ (λ _. inl refl)
              (λ whole. inr (
                (ground (arith, digit), ground (arith, digit)),
                ground (arith, small, whole, digit),
              ))))

parse_digits-value :
    (n : ℕ) (s : List ℕ) (v : ℕ)
    → n < 2 ^ 64
    → parse_digits n s ≡ some v
    → All IsDigit s × (digits_value n s ≡ v) × (v < 2 ^ 64)
unfolding parse_digits
parse_digits-value n [] v fits e = let same : n ≡ v = cc in (tt, same, omega (arith, fits, same))
parse_digits-value n (c ∷ s) v fits e = elim (add_digit-cases n c) [
  | inl refused ↦ absurd (let e' = (rw (refused, parse_digits) at e) in cc)
  | inr (digit, small) ↦
      let (digits, value, most) =
        parse_digits-value (n * 10 + (c - 48)) s v small
          (rw (add_digit-some n c digit small, parse_digits) at e) in
      ((digit, digits), value, most)
]

value-parse_digits :
    (n : ℕ) (s : List ℕ) (v : ℕ)
    → All IsDigit s
    → digits_value n s ≡ v
    → v < 2 ^ 64
    → parse_digits n s ≡ some v
unfolding parse_digits
value-parse_digits n [] v digits e fits = cc
value-parse_digits n (c ∷ s) v (digit, digits) e fits =
    let small : n * 10 + (c - 48) < 2 ^ 64 = omega (arith, grows (n * 10 + (c - 48)) s, e, fits) in
    rw (add_digit-some n c digit small, parse_digits)
      (value-parse_digits (n * 10 + (c - 48)) s v digits e fits)

-- ParseUint returns a number for a text exactly where the text is that number in decimal, one digit or
-- more and nothing else, and the number has 64 bits.
pub parse_uint_exact : (s : List ℕ) (n : ℕ) → (parse_uint s ≡ some n) ↔ IsDecimal s n
unfolding parse_uint
parse_uint_exact [] n = (λ e. absurd (cc), λ h. absurd (h.some_digit refl))
parse_uint_exact (c ∷ s) n = (
  λ e.
      let (digits, value, fits) = parse_digits-value 0 (c ∷ s) n (omega arith) e in
      record { some_digit = λ empty. absurd (cc); digits = digits; value = value; fits = fits },
  λ h. value-parse_digits 0 (c ∷ s) n h.digits h.value h.fits,
)
