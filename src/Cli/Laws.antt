-- ===== src/Cli/Laws.antt =====
-- cmd/tumbleweed-cli/main.go: what rearrangeArgs keeps.
use mathlib.Core.List.{Perm}
use mathlib.Core.List.Perm
use tumbleweed.Base.{◌≡◌, refl, ap, ◌∙◌, List, [], ◌∷◌, ◌++◌, true, false, if_cases, All}
use tumbleweed.Broker.Names.{Name}
use tumbleweed.Cli.{is_addr, is_addr_value, placed, sort_args, rearrange_args}

Perm-middle : (xs : List Name) (a : Name) (ys : List Name) → Perm (xs ++ (a ∷ ys)) (a ∷ (xs ++ ys))
Perm-middle [] a ys = Perm.refl (a ∷ ys)
Perm-middle (x ∷ xs) a ys =
    Perm.trans (Perm.cons x (Perm-middle xs a ys)) (Perm.swap a x (xs ++ ys))

abbrev joined : List Name × List Name → List Name
joined (flags, others) = flags ++ others

placed-Perm :
    (arg : Name) (p : List Name × List Name) (args : List Name)
    → Perm (joined p) args
    → Perm (joined (placed arg p)) (arg ∷ args)
placed-Perm arg (flags, others) args h =
    if_cases (λ q. Perm (joined q) (arg ∷ args)) (is_addr_value arg) _ _ (λ _. Perm.cons arg h)
      (λ _. Perm.trans (Perm-middle flags arg others) (Perm.cons arg h))

sort_args-Perm : (args : List Name) → Perm (joined (sort_args args)) args
unfolding sort_args
sort_args-Perm [] = Perm.refl []
sort_args-Perm (arg ∷ []) =
    if_cases (λ q. Perm (joined q) (arg ∷ [])) (is_addr arg) _ _ (λ _. Perm.refl (arg ∷ []))
      (λ _. placed-Perm arg ([], []) [] (Perm.refl []))
sort_args-Perm (arg ∷ value ∷ rest) =
    if_cases (λ q. Perm (joined q) (arg ∷ value ∷ rest)) (is_addr arg) _ _
      (λ _. Perm.cons arg (Perm.cons value (sort_args-Perm rest)))
      (λ _.
        placed-Perm arg (sort_args (value ∷ rest)) (value ∷ rest) (sort_args-Perm (value ∷ rest)))

-- an argument that is no flag for the address
abbrev pub IsOther : Name → Type 0
IsOther arg = (is_addr arg ≡ false) × (is_addr_value arg ≡ false)

placed-IsOther :
    (arg : Name) (p : List Name × List Name)
    → is_addr arg ≡ false
    → All IsOther p.1
    → All IsOther (placed arg p).1
placed-IsOther arg (flags, others) no_addr h =
    if_cases (λ (q : List Name × List Name). All IsOther q.1) (is_addr_value arg) _ _ (λ _. h)
      (λ no_value. ((no_addr, no_value), h))

sort_args-IsOther : (args : List Name) → All IsOther (sort_args args).1
unfolding sort_args
sort_args-IsOther [] = tt
sort_args-IsOther (arg ∷ []) =
    if_cases (λ (q : List Name × List Name). All IsOther q.1) (is_addr arg) _ _ (λ _. tt)
      (λ e. placed-IsOther arg ([], []) e tt)
sort_args-IsOther (arg ∷ value ∷ rest) =
    if_cases (λ (q : List Name × List Name). All IsOther q.1) (is_addr arg) _ _
      (λ _. sort_args-IsOther rest)
      (λ e. placed-IsOther arg (sort_args (value ∷ rest)) e (sort_args-IsOther (value ∷ rest)))

pub sort_args-single :
    (arg : Name) (rest : List Name)
    → is_addr arg ≡ false
    → sort_args (arg ∷ rest) ≡ placed arg (sort_args rest)
unfolding sort_args
sort_args-single arg [] e = rw e refl
sort_args-single arg (value ∷ rest) e = rw e refl

pub sort_args-others : (os : List Name) → All IsOther os → sort_args os ≡ ([], os)
unfolding sort_args
sort_args-others [] h = refl
sort_args-others (o ∷ os) ((no_addr, no_value), h) =
    sort_args-single o os no_addr ∙ ap (placed o) (sort_args-others os h) ∙ rw no_value refl

-- Flags that stand in front stay there.
abbrev Stays : List Name → List Name → Type 0
Stays os flags = joined (sort_args (flags ++ os)) ≡ flags ++ os

value-Stays :
    (arg : Name) (flags os : List Name)
    → is_addr arg ≡ false
    → is_addr_value arg ≡ true
    → Stays os flags
    → Stays os (arg ∷ flags)
value-Stays arg flags os no_addr value h =
    ap joined (sort_args-single arg (flags ++ os) no_addr) ∙ rw value (ap (λ t. arg ∷ t) h)

placed-Stays :
    (arg : Name) (p : List Name × List Name) (os : List Name)
    → is_addr arg ≡ false
    → Stays os p.0
    → Stays os (placed arg p).0
placed-Stays arg (flags, others) os no_addr h =
    if_cases (λ (q : List Name × List Name). Stays os q.0) (is_addr_value arg) _ _
      (λ e. value-Stays arg flags os no_addr e h) (λ _. h)

flag-Stays :
    (arg : Name) (os : List Name) → All IsOther os → is_addr arg ≡ true → Stays os (arg ∷ [])
unfolding sort_args
flag-Stays arg [] h e = rw e refl
flag-Stays arg (o ∷ os) h e = rw (e, sort_args-others os h.1) refl

sort_args-Stays : (args os : List Name) → All IsOther os → Stays os (sort_args args).0
unfolding sort_args
sort_args-Stays [] os h = ap joined (sort_args-others os h)
sort_args-Stays (arg ∷ []) os h =
    if_cases (λ (q : List Name × List Name). Stays os q.0) (is_addr arg) _ _
      (λ e. flag-Stays arg os h e)
      (λ e. placed-Stays arg ([], []) os e (ap joined (sort_args-others os h)))
sort_args-Stays (arg ∷ value ∷ rest) os h =
    if_cases (λ (q : List Name × List Name). Stays os q.0) (is_addr arg) _ _
      (λ e. rw e (ap (λ t. arg ∷ value ∷ t) (sort_args-Stays rest os h)))
      (λ e. placed-Stays arg (sort_args (value ∷ rest)) os e (sort_args-Stays (value ∷ rest) os h))

-- The arguments come out again, each as often as it went in, and to rearrange them once more changes
-- nothing.
pub rearrange_args-settles :
    (args : List Name)
    → Perm (rearrange_args args) args × (rearrange_args (rearrange_args args) ≡ rearrange_args args)
unfolding rearrange_args
rearrange_args-settles args =
    (sort_args-Perm args, sort_args-Stays args (sort_args args).1 (sort_args-IsOther args))
