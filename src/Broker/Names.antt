-- ===== src/Broker/Names.antt =====
-- Go maps whose keys are strings, as association lists in the order in which `range` visits them.
use tumbleweed.Base.{
  ℕ, ◌-◌, ◌≡◌, refl, ap, ◌∙◌, Option, none, some, List, [], ◌∷◌, Bool, true, false, ◌&&◌,
  Bool-cases, inl, inr, length, take, drop, leb, ◌==◌, if◌then◌else◌, arith,
}

abbrev pub Name : Type 0
Name = List ℕ

-- `a == b` on strings
unfoldable pub same_name : Name → Name → Bool
same_name [] [] = true
same_name [] (y ∷ ys) = false
same_name (x ∷ xs) [] = false
same_name (x ∷ xs) (y ∷ ys) = x == y && same_name xs ys

pub same_name_self : (a : Name) → same_name a a ≡ true
unfolding same_name
same_name_self [] = refl
same_name_self (x ∷ xs) = ground (arith, same_name_self xs)

pub eq_of_same_name : (a b : Name) → same_name a b ≡ true → a ≡ b
unfolding same_name
eq_of_same_name [] [] e = refl
eq_of_same_name [] (y ∷ ys) e = absurd (cc)
eq_of_same_name (x ∷ xs) [] e = absurd (cc)
eq_of_same_name (x ∷ xs) (y ∷ ys) e =
    let rest : same_name xs ys ≡ true = ground (arith, e) in
    let tail = eq_of_same_name xs ys rest in let head : x ≡ y = ground (arith, e) in cc

-- `strings.TrimSuffix`, where the name ends in the suffix
unfoldable pub strip_suffix : Name → Name → Option Name
strip_suffix suffix name =
    let stem = length name - length suffix in
    if leb (length suffix) (length name) && same_name (drop stem name) suffix
    then some (take stem name)
    else none

module _ {V : Type 0} where
  unfoldable pub find : Name → List (Name × V) → Option V
  find k [] = none
  find k ((j, v) ∷ m) = if same_name j k then some v else find k m

  -- `m[k] = v`
  unfoldable pub put : Name → V → List (Name × V) → List (Name × V)
  put k v [] = (k, v) ∷ []
  put k v ((j, x) ∷ m) = if same_name j k then (k, v) ∷ m else (j, x) ∷ put k v m

  unfoldable pub names : List (Name × V) → List Name
  names [] = []
  names ((k, v) ∷ m) = k ∷ names m

  pub find-put_self : (k : Name) (v : V) (m : List (Name × V)) → find k (put k v m) ≡ some v
  unfolding find put
  find-put_self k v [] = rw (same_name_self k) refl
  find-put_self k v ((j, x) ∷ m) = elim (Bool-cases (same_name j k)) [
    | inl e ↦ rw (e, find, same_name_self k) refl
    | inr e ↦ rw (e, find, e) (find-put_self k v m)
  ]

  pub find-put_other :
      (k j : Name) (v : V) (m : List (Name × V))
      → same_name k j ≡ false
      → find j (put k v m) ≡ find j m
  unfolding find put
  find-put_other k j v [] other = rw other refl
  find-put_other k j v ((i, x) ∷ m) other = elim (Bool-cases (same_name i k)) [
    | inl e ↦
        let z = eq_of_same_name i k e in
        let gone : same_name i j ≡ false = ap (λ t. same_name t j) z ∙ other in
        rw (e, find, other, gone) refl
    | inr e ↦ elim (Bool-cases (same_name i j)) [
      | inl f ↦ rw (e, find, f) refl
      | inr f ↦ rw (e, find, f) (find-put_other k j v m other)
    ]
  ]
