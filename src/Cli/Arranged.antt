-- ===== src/Cli/Arranged.antt =====
-- cmd/tumbleweed-cli/main.go: what rearrangeArgs makes of the arguments, one after the other.
use mathlib.Core.List.{Perm}
use tumbleweed.Base.{
  ℕ, ◌≡◌, refl, sym, ap, ◌∙◌, ◌⊎◌, inl, inr, zero, suc, List, [], ◌∷◌, ◌++◌, true, false,
  Bool-cases, length, take, drop,
}
use tumbleweed.Broker.Names.{Name, same_name, eq_of_same_name}
use tumbleweed.Cli.{
  addr_flag, long_addr_flag, addr_prefix, long_addr_prefix, has_prefix, is_addr, is_addr_value,
  placed, placed_pair, sort_args, rearrange_args,
}
use tumbleweed.Cli.Laws.{rearrange_args-settles}

-- "-addr" or "--addr"
abbrev pub IsFlag : Name → Type 0
IsFlag arg = (arg ≡ 45 ∷ 97 ∷ 100 ∷ 100 ∷ 114 ∷ []) ⊎ (arg ≡ 45 ∷ 45 ∷ 97 ∷ 100 ∷ 100 ∷ 114 ∷ [])

-- "-addr=" or "--addr=" with a value behind it
abbrev pub HasValue : Name → Type 0
HasValue arg =
    (v : Name) × ((arg ≡ 45 ∷ 97 ∷ 100 ∷ 100 ∷ 114 ∷ 61 ∷ v)
      ⊎ (arg ≡ 45 ∷ 45 ∷ 97 ∷ 100 ∷ 100 ∷ 114 ∷ 61 ∷ v))

-- The arguments, the flags of the address among them with their values, and the others, each in their
-- order. A flag takes the argument behind it as its value, whatever that is.
pub data Arranged : List Name → List Name → List Name → Type 0 where
  nothing : Arranged [] [] []
  bare : (arg : Name) → IsFlag arg → Arranged (arg ∷ []) (arg ∷ []) []
  pair :
      (arg value : Name) (rest flags others : List Name)
      → IsFlag arg
      → Arranged rest flags others
      → Arranged (arg ∷ value ∷ rest) (arg ∷ value ∷ flags) others
  whole :
      (arg : Name) (rest flags others : List Name)
      → ¬ IsFlag arg
      → HasValue arg
      → Arranged rest flags others
      → Arranged (arg ∷ rest) (arg ∷ flags) others
  other :
      (arg : Name) (rest flags others : List Name)
      → ¬ IsFlag arg
      → ¬ HasValue arg
      → Arranged rest flags others
      → Arranged (arg ∷ rest) flags (arg ∷ others)

pub is_addr-either :
    (flag : Name) → is_addr flag ≡ true → (flag ≡ addr_flag) ⊎ (flag ≡ long_addr_flag)
unfolding is_addr
is_addr-either flag e = elim (Bool-cases (same_name flag addr_flag)) [
  | inl short ↦ inl (eq_of_same_name flag addr_flag short)
  | inr long ↦ inr (eq_of_same_name flag long_addr_flag (rw long at e))
]

not_IsFlag : (arg : Name) → is_addr arg ≡ false → ¬ IsFlag arg
unfolding is_addr same_name
not_IsFlag arg h (inl e) = let on : is_addr arg ≡ true = ap is_addr e in absurd (cc)
not_IsFlag arg h (inr e) = let on : is_addr arg ≡ true = ap is_addr e in absurd (cc)

take-drop : (n : ℕ) (xs : Name) → take n xs ++ drop n xs ≡ xs
take-drop zero xs = refl
take-drop (suc n) [] = refl
take-drop (suc n) (x ∷ xs) = ap (λ t. x ∷ t) (take-drop n xs)

prefix_split :
    (arg prefix : Name) → has_prefix arg prefix ≡ true → arg ≡ prefix ++ drop (length prefix) arg
prefix_split arg prefix h =
    sym (take-drop (length prefix) arg)
    ∙ ap (λ t. t ++ drop (length prefix) arg) (eq_of_same_name (take (length prefix) arg) prefix h)

is_addr_value-HasValue : (arg : Name) → is_addr_value arg ≡ true → HasValue arg
unfolding is_addr_value
is_addr_value-HasValue arg e = elim (Bool-cases (has_prefix arg addr_prefix)) [
  | inl short ↦ (drop 6 arg, inl (prefix_split arg addr_prefix short))
  | inr long ↦ (drop 7 arg, inr (prefix_split arg long_addr_prefix (rw long at e)))
]

not_HasValue : (arg : Name) → is_addr_value arg ≡ false → ¬ HasValue arg
unfolding is_addr_value same_name
not_HasValue arg h (v, inl e) =
    let on : is_addr_value arg ≡ true = ap is_addr_value e in absurd (cc)
not_HasValue arg h (v, inr e) =
    let on : is_addr_value arg ≡ true = ap is_addr_value e in absurd (cc)

abbrev Sorted : List Name → List Name × List Name → Type 0
Sorted args (flags, others) = Arranged args flags others

placed-Sorted :
    (arg : Name) (rest : List Name) (p : List Name × List Name)
    → is_addr arg ≡ false
    → Sorted rest p
    → Sorted (arg ∷ rest) (placed arg p)
placed-Sorted arg rest (flags, others) no_addr h = elim (Bool-cases (is_addr_value arg)) [
  | inl e ↦
      rw e (whole arg rest flags others (not_IsFlag arg no_addr) (is_addr_value-HasValue arg e) h)
  | inr e ↦ rw e (other arg rest flags others (not_IsFlag arg no_addr) (not_HasValue arg e) h)
]

pair-Sorted :
    (arg value : Name) (rest : List Name) (p : List Name × List Name)
    → IsFlag arg
    → Sorted rest p
    → Sorted (arg ∷ value ∷ rest) (placed_pair arg value p)
pair-Sorted arg value rest (flags, others) h k = pair arg value rest flags others h k

sort_args-Sorted : (args : List Name) → Sorted args (sort_args args)
unfolding sort_args
sort_args-Sorted [] = nothing
sort_args-Sorted (arg ∷ []) = elim (Bool-cases (is_addr arg)) [
  | inl e ↦ rw e (bare arg (is_addr-either arg e))
  | inr e ↦ rw e (placed-Sorted arg [] ([], []) e nothing)
]
sort_args-Sorted (arg ∷ value ∷ rest) = elim (Bool-cases (is_addr arg)) [
  | inl e ↦
      rw e
        (pair-Sorted arg value rest (sort_args rest) (is_addr-either arg e) (sort_args-Sorted rest))
  | inr e ↦ rw e (
      placed-Sorted arg (value ∷ rest) (sort_args (value ∷ rest)) e
        (sort_args-Sorted (value ∷ rest)))
]

-- The flags of the address with their values, and then the other arguments.
abbrev pub Arranges : List Name → List Name → Type 0
Arranges args result =
    (flags others : List Name) × Arranged args flags others
    × (result ≡ flags ++ others)
    × Perm result args
    × (rearrange_args result ≡ result)

-- rearrangeArgs puts the flags of the address in front, in their order: each -addr or --addr with the
-- argument behind it, if there is one, and each argument that begins with -addr= or --addr=. The other
-- arguments follow in their order. None is lost or added, and to do it again changes nothing.
pub rearrange_args-Arranges : (args : List Name) → Arranges args (rearrange_args args)
unfolding rearrange_args
rearrange_args-Arranges args =
    let (all, same) = rearrange_args-settles args in
    ((sort_args args).0, (sort_args args).1, sort_args-Sorted args, refl, all, same)
