-- ===== src/Broker/Sort.antt =====
-- pkg/broker/coordinator.go, fetchAvailable: the exchange sort of the expired offsets.
use mathlib.Core.List.{Perm}
use mathlib.Core.List.Perm
use tumbleweed.Base.{
  ℕ, zero, suc, ◌≤◌, ◌≡◌, refl, List, [], ◌∷◌, length, ltb, if◌then◌else◌, All, if_holds,
  Bool-cases, inl, inr, arith,
}

-- One round of the outer loop: `x` is the element at `i`, and the list is what stands behind it. Each
-- step swaps `x` with the element at `j` if `x` is greater.
unfoldable pub exchange : ℕ → List ℕ → ℕ × List ℕ
exchange x [] = (x, [])
exchange x (y ∷ ys) =
    let (least, rest) = exchange (if ltb y x then y else x) ys in
    (least, (if ltb y x then x else y) ∷ rest)

-- The outer loop, with the number of rounds that are left.
unfoldable pub sort_loop : ℕ → List ℕ → List ℕ
sort_loop zero xs = xs
sort_loop (suc n) [] = []
sort_loop (suc n) (x ∷ xs) = let (least, rest) = exchange x xs in least ∷ sort_loop n rest

unfoldable pub sort_offsets : List ℕ → List ℕ
sort_offsets xs = sort_loop (length xs) xs

abbrev pub IsSorted : List ℕ → Type 0
IsSorted [] = Unit {0}
IsSorted (x ∷ xs) = All (λ y. x ≤ y) xs × IsSorted xs

length-exchange : (x : ℕ) (ys : List ℕ) → length (exchange x ys).1 ≡ length ys
unfolding exchange
length-exchange x [] = refl
length-exchange x (y ∷ ys) = omega (arith, length-exchange (if ltb y x then y else x) ys)

exchange-le : (x : ℕ) (ys : List ℕ) → (exchange x ys).0 ≤ x
unfolding exchange
exchange-le x [] = omega arith
exchange-le x (y ∷ ys) = ground (arith, exchange-le (if ltb y x then y else x) ys)

exchange-least : (x : ℕ) (ys : List ℕ) → All (λ y. (exchange x ys).0 ≤ y) (exchange x ys).1
unfolding exchange
exchange-least x [] = tt
exchange-least x (y ∷ ys) = (
  ground (arith, exchange-le (if ltb y x then y else x) ys),
  exchange-least (if ltb y x then y else x) ys,
)

swapped :
    (x y : ℕ) (ys : List ℕ)
    → Perm ((if ltb y x then x else y) ∷ ((if ltb y x then y else x) ∷ ys)) (x ∷ (y ∷ ys))
swapped x y ys = elim (Bool-cases (ltb y x)) [
  | inl e ↦ rw e (Perm.refl (x ∷ (y ∷ ys)))
  | inr e ↦ rw e (Perm.swap x y ys)
]

exchange-perm : (x : ℕ) (ys : List ℕ) → Perm ((exchange x ys).0 ∷ (exchange x ys).1) (x ∷ ys)
unfolding exchange
exchange-perm x [] = Perm.refl (x ∷ [])
exchange-perm x (y ∷ ys) =
    let a = if ltb y x then y else x in
    let b = if ltb y x then x else y in
    Perm.trans (Perm.swap b (exchange a ys).0 (exchange a ys).1)
      (Perm.trans (Perm.cons b (exchange-perm a ys)) (swapped x y ys))

sort_loop-perm : (n : ℕ) (xs : List ℕ) → Perm (sort_loop n xs) xs
unfolding sort_loop
sort_loop-perm zero xs = Perm.refl xs
sort_loop-perm (suc n) [] = Perm.refl []
sort_loop-perm (suc n) (x ∷ xs) =
    Perm.trans (Perm.cons (exchange x xs).0 (sort_loop-perm n (exchange x xs).1))
      (exchange-perm x xs)

pub All-exchange :
    (P : ℕ → Type 0) (x : ℕ) (ys : List ℕ)
    → P x
    → All P ys
    → P (exchange x ys).0 × All P (exchange x ys).1
unfolding exchange
All-exchange P x [] p ps = (p, tt)
All-exchange P x (y ∷ ys) p (q, qs) =
    let (least, rest) =
      All-exchange P (if ltb y x then y else x) ys (if_holds P (ltb y x) y x q p) qs in
    (least, (if_holds P (ltb y x) x y p q, rest))

pub All-sort_loop : (P : ℕ → Type 0) (n : ℕ) (xs : List ℕ) → All P xs → All P (sort_loop n xs)
unfolding sort_loop
All-sort_loop P zero xs ps = ps
All-sort_loop P (suc n) [] ps = tt
All-sort_loop P (suc n) (x ∷ xs) (p, ps) =
    let (least, rest) = All-exchange P x xs p ps in
    (least, All-sort_loop P n (exchange x xs).1 rest)

sort_loop-IsSorted : (n : ℕ) (xs : List ℕ) → length xs ≤ n → IsSorted (sort_loop n xs)
unfolding sort_loop
sort_loop-IsSorted zero [] h = tt
sort_loop-IsSorted zero (x ∷ xs) h = absurd (omega arith)
sort_loop-IsSorted (suc n) [] h = tt
sort_loop-IsSorted (suc n) (x ∷ xs) h = (
  All-sort_loop (λ y. (exchange x xs).0 ≤ y) n (exchange x xs).1 (exchange-least x xs),
  sort_loop-IsSorted n (exchange x xs).1 (omega (arith, length-exchange x xs)),
)

-- The expired offsets come out in ascending order, and they are the offsets that went in.
pub sort_offsets-sorts : (xs : List ℕ) → IsSorted (sort_offsets xs) × Perm (sort_offsets xs) xs
unfolding sort_offsets
sort_offsets-sorts xs =
    (sort_loop-IsSorted (length xs) xs (omega arith), sort_loop-perm (length xs) xs)
