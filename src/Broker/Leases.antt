-- ===== src/Broker/Leases.antt =====
-- A Go map from offsets to leases, as an association list in the order in which `range` visits it.
use tumbleweed.Base.{
  ℕ, ◌+◌, ◌≤◌, ◌<◌, ◌≡◌, refl, Option, none, some, List, [], ◌∷◌, length, if_cases, ◌==◌,
  if◌then◌else◌, Bool, arith,
}

-- LeaseState; times are nanoseconds of one clock.
pub record Lease : Type 0 where
  pub offset : ℕ
  pub consumer_id : List ℕ
  pub expiry : ℕ
  pub redeliveries : ℕ
  pub acked : Bool

abbrev pub Leases : Type 0
Leases = List (ℕ × Lease)

unfoldable pub lookup : ℕ → Leases → Option Lease
lookup k [] = none
lookup k ((j, l) ∷ m) = if j == k then some l else lookup k m

-- `m[k] = l`
unfoldable pub insert : ℕ → Lease → Leases → Leases
insert k l [] = (k, l) ∷ []
insert k l ((j, x) ∷ m) = if j == k then (k, l) ∷ m else (j, x) ∷ insert k l m

-- `delete(m, k)`
unfoldable pub delete : ℕ → Leases → Leases
delete k [] = []
delete k ((j, l) ∷ m) = let rest = delete k m in if j == k then rest else (j, l) ∷ rest

pub lookup-insert :
    (k j : ℕ) (l : Lease) (m : Leases)
    → lookup j (insert k l m) ≡ (if k == j then some l else lookup j m)
unfolding lookup insert
lookup-insert k j l [] = refl
lookup-insert k j l ((i, x) ∷ m) = ground (arith, lookup-insert k j l m)

pub lookup-delete :
    (k j : ℕ) (m : Leases) → lookup j (delete k m) ≡ (if k == j then none else lookup j m)
unfolding lookup delete
lookup-delete k j [] = ground arith
lookup-delete k j ((i, x) ∷ m) = ground (arith, lookup-delete k j m)

pub length-delete-le : (k : ℕ) (m : Leases) → length (delete k m) ≤ length m
unfolding delete
length-delete-le k [] = omega arith
length-delete-le k ((j, l) ∷ m) = ground (arith, length-delete-le k m)

-- A key that is there makes the map smaller when it goes.
pub length-delete-lt :
    (k : ℕ) (m : Leases) (l : Lease) → lookup k m ≡ some l → length (delete k m) < length m
unfolding lookup delete
length-delete-lt k [] l h = cc
length-delete-lt k ((j, x) ∷ m) l h = ground (arith, length-delete-le k m, length-delete-lt k m l)

-- An insert at a key that is there adds none.
pub length-insert :
    (k : ℕ) (x : Lease) (m : Leases) (l : Lease)
    → lookup k m ≡ some l
    → length (insert k x m) ≡ length m
unfolding lookup insert
length-insert k x [] l h = absurd (cc)
length-insert k x ((j, y) ∷ m) l h = ground (arith, length-insert k x m l)

-- A key stands once, as in a Go map.
abbrev pub Unique : Leases → Type 0
Unique [] = Unit {0}
Unique ((k, l) ∷ m) = (lookup k m ≡ none) × Unique m

pub insert-Unique : (k : ℕ) (l : Lease) (m : Leases) → Unique m → Unique (insert k l m)
unfolding lookup insert
insert-Unique k l [] u = (refl, tt)
insert-Unique k l ((j, x) ∷ m) (absent, u) =
    if_cases Unique (j == k) _ _
      (λ same. let e : j ≡ k = ground (arith, same) in (rw e at absent, u))
      (λ other. (ground (arith, other, absent, lookup-insert k j l m), insert-Unique k l m u))

pub delete-Unique : (k : ℕ) (m : Leases) → Unique m → Unique (delete k m)
unfolding delete
delete-Unique k [] u = tt
delete-Unique k ((j, x) ∷ m) (absent, u) =
    if_cases Unique (j == k) _ _ (λ same. delete-Unique k m u)
      (λ other. (ground (arith, absent, lookup-delete k j m), delete-Unique k m u))

-- A new key makes the map longer by one.
pub length-insert_new :
    (k : ℕ) (x : Lease) (m : Leases) → lookup k m ≡ none → length (insert k x m) ≡ length m + 1
unfolding lookup insert
length-insert_new k x [] h = omega arith
length-insert_new k x ((j, y) ∷ m) h = ground (arith, length-insert_new k x m)
