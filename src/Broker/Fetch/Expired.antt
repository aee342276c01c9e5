-- ===== src/Broker/Fetch/Expired.antt =====
-- pkg/broker/coordinator.go, fetchAvailable: the expired offsets, which are leased and stand once.
use tumbleweed.Base.{
  ℕ, zero, suc, ◌≡◌, inl, inr, none, some, List, [], ◌∷◌, length, true, false, Bool-cases, if_cases,
  if_holds, ltb, ◌==◌, if◌then◌else◌, All, arith,
}
use tumbleweed.Broker.Leases.{Lease, Leases, lookup, Unique}
use tumbleweed.Broker.Sort.{exchange, sort_loop, sort_offsets, All-exchange, All-sort_loop}
use tumbleweed.Broker.Fetch.{is_expired, expired_offsets}

pub All-map : {P Q : ℕ → Type 0} (xs : List ℕ) → ((x : ℕ) → P x → Q x) → All P xs → All Q xs
All-map [] f h = tt
All-map (x ∷ xs) f h = (f x h.0, All-map xs f h.1)

abbrev pub Apart : ℕ → ℕ → Type 0
Apart a b = (a == b) ≡ false

abbrev pub Distinct : List ℕ → Type 0
Distinct [] = Unit {0}
Distinct (x ∷ xs) = All (Apart x) xs × Distinct xs

-- An offset under a lease that is expired.
abbrev pub IsDue : ℕ → Leases → ℕ → Type 0
IsDue now m o = (l : Lease) × (lookup o m ≡ some l) × (is_expired now l ≡ true)

apart : (o j : ℕ) (m : Leases) (l : Lease) → lookup j m ≡ none → lookup o m ≡ some l → Apart j o
apart o j m l absent at = elim (Bool-cases (j == o)) [
  | inr e ↦ e
  | inl e ↦ let z : j ≡ o = ground (arith, e) in absurd (cc)
]

pub expired_offsets-IsDue :
    (now : ℕ) (m : Leases) → Unique m → All (IsDue now m) (expired_offsets now m)
unfolding expired_offsets lookup
expired_offsets-IsDue now [] u = tt
expired_offsets-IsDue now ((j, x) ∷ m) (absent, u) =
    let rest : All (IsDue now ((j, x) ∷ m)) (expired_offsets now m) =
      All-map (expired_offsets now m) (λ o (l, at, due). (l, rw (apart o j m l absent at) at, due))
        (expired_offsets-IsDue now m u) in
    if_cases (All (IsDue now ((j, x) ∷ m))) (is_expired now x) _ _
      (λ due. ((x, ground arith, due), rest)) (λ _. rest)

expired_offsets-Distinct : (now : ℕ) (m : Leases) → Unique m → Distinct (expired_offsets now m)
unfolding expired_offsets
expired_offsets-Distinct now [] u = tt
expired_offsets-Distinct now ((j, x) ∷ m) (absent, u) =
    let rest = expired_offsets-Distinct now m u in
    if_cases Distinct (is_expired now x) _ _
      (λ _. (
        All-map (expired_offsets now m) (λ o (l, at, due). apart o j m l absent at)
            (expired_offsets-IsDue now m u),
        rest,
      ))
      (λ _. rest)

exchange-Distinct :
    (x : ℕ) (ys : List ℕ)
    → All (Apart x) ys
    → Distinct ys
    → All (Apart (exchange x ys).0) (exchange x ys).1 × Distinct (exchange x ys).1
unfolding exchange
exchange-Distinct x [] a d = (tt, tt)
exchange-Distinct x (y ∷ ys) (xy, a) (b, d) =
    let low = if ltb y x then y else x in
    let high = if ltb y x then x else y in
    let low_apart : All (Apart low) ys = if_holds (λ n. All (Apart n) ys) (ltb y x) y x b a in
    let high_apart : All (Apart high) ys = if_holds (λ n. All (Apart n) ys) (ltb y x) x y a b in
    let (least_apart, rest) = exchange-Distinct low ys low_apart d in
    let low_high : Apart low high = ground (arith, xy) in
    let (l, r) = All-exchange (λ n. Apart high n) low ys (ground (arith, low_high)) high_apart in
    ((ground (arith, l), least_apart), (r, rest))

sort_loop-Distinct : (n : ℕ) (xs : List ℕ) → Distinct xs → Distinct (sort_loop n xs)
unfolding sort_loop
sort_loop-Distinct zero xs d = d
sort_loop-Distinct (suc n) [] d = tt
sort_loop-Distinct (suc n) (x ∷ xs) (a, d) =
    let (least, rest) = exchange-Distinct x xs a d in
    (All-sort_loop (Apart (exchange x xs).0) n (exchange x xs).1 least, sort_loop-Distinct n _ rest)

-- What fetchAvailable goes through: offsets under expired leases, each once.
pub sorted_expired :
    (now : ℕ) (m : Leases)
    → Unique m
    → All (IsDue now m) (sort_offsets (expired_offsets now m))
      × Distinct (sort_offsets (expired_offsets now m))
unfolding sort_offsets
sorted_expired now m u =
    let xs = expired_offsets now m in
    (
      All-sort_loop (IsDue now m) (length xs) xs (expired_offsets-IsDue now m u),
      sort_loop-Distinct (length xs) xs (expired_offsets-Distinct now m u),
    )
