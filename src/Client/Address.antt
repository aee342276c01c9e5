-- ===== src/Client/Address.antt =====
-- pkg/client/client.go: normalizeAddr, with what it uses of `net.SplitHostPort`. An address is a string, as a
-- list of bytes: 58 is ':', 91 is '[' and 93 is ']'.
use tumbleweed.Base.{
  ℕ, ◌≡◌, refl, sym, ap, subst, inl, inr, Option, none, some, [], ◌∷◌, ◌++◌, Bool, true, false, not,
  ◌&&◌, ◌||◌, Bool-cases, ◌==◌, if◌then◌else◌, Result, arith,
}
use tumbleweed.Broker.Names.{Name}

unfoldable pub contains : ℕ → Name → Bool
contains b [] = false
contains b (c ∷ s) = c == b || contains b s

-- in front of the last ':', and behind it
unfoldable pub split_last_colon : Name → Option (Name × Name)
split_last_colon [] = none
split_last_colon (c ∷ s) = elim (split_last_colon s) [
  | some (host, port) ↦ some (c ∷ host, port)
  | none ↦ if c == 58 then some ([], s) else none
]

-- in front of the first ']', and behind it
unfoldable pub split_bracket : Name → Option (Name × Name)
split_bracket [] = none
split_bracket (c ∷ s) =
    let rest = split_bracket s in
    if c == 93
    then some ([], s)
    else elim rest [ some (host, more) ↦ some (c ∷ host, more) | none ↦ none ]

abbrev pub has_bracket : Name → Bool
has_bracket s = contains 91 s || contains 93 s

abbrev plain_port : Option (Name × Name) → Bool
plain_port none = false
plain_port (some (host, port)) =
    not (contains 58 host) && not (has_bracket host) && not (has_bracket port)

abbrev bracket_port : Option (Name × Name) → Bool
bracket_port none = false
bracket_port (some (host, [])) = false
bracket_port (some (host, c ∷ port)) =
    c == 58 && not (contains 58 port) && not (contains 91 host) && not (has_bracket port)

-- whether SplitHostPort returns no error
unfoldable pub has_port : Name → Bool
has_port [] = false
has_port (c ∷ s) =
    if c == 91 then bracket_port (split_bracket s) else plain_port (split_last_colon (c ∷ s))

-- "localhost"
abbrev pub localhost : Name
localhost = 108 ∷ 111 ∷ 99 ∷ 97 ∷ 108 ∷ 104 ∷ 111 ∷ 115 ∷ 116 ∷ []

unfoldable pub normalize_addr : Name → Name → Name
normalize_addr [] port = localhost ++ port
normalize_addr (c ∷ s) port =
    if c == 58
    then localhost ++ (c ∷ s)
    else if has_port (c ∷ s)
    then c ∷ s
    else if contains 58 (c ∷ s) && not (contains 91 (c ∷ s))
    then 91 ∷ ((c ∷ s) ++ (93 ∷ port))
    else (c ∷ s) ++ port

-- ":8765"
abbrev pub default_port : Name
default_port = 58 ∷ 56 ∷ 55 ∷ 54 ∷ 53 ∷ []

-- Connect: `dial` is `net.Dial`
abbrev pub connect : {C : Type 0} → (Name → Result C) → Name → Result C
connect dial addr = dial (normalize_addr addr default_port)

split_last_colon-none : (p : Name) → contains 58 p ≡ false → split_last_colon p ≡ none
unfolding contains split_last_colon
split_last_colon-none [] h = refl
split_last_colon-none (c ∷ s) h =
    let other : (c == 58) ≡ false = ground (arith, h) in
    let rest : contains 58 s ≡ false = ground (arith, h) in
    rw (split_last_colon-none s rest, other) refl

split_last_colon-append :
    (host port : Name)
    → contains 58 port ≡ false
    → split_last_colon (host ++ (58 ∷ port)) ≡ some (host, port)
unfolding split_last_colon
split_last_colon-append [] port h = rw (split_last_colon-none port h) refl
split_last_colon-append (c ∷ host) port h = rw (split_last_colon-append host port h) refl

split_bracket-append :
    (host rest : Name)
    → contains 93 host ≡ false
    → split_bracket (host ++ (93 ∷ rest)) ≡ some (host, rest)
unfolding contains split_bracket
split_bracket-append [] rest h = refl
split_bracket-append (c ∷ host) rest h =
    let other : (c == 93) ≡ false = ground (arith, h) in
    let later : contains 93 host ≡ false = ground (arith, h) in
    rw (split_bracket-append host rest later, other) refl

no_brackets : (s : Name) → has_bracket s ≡ false → (contains 91 s ≡ false) × (contains 93 s ≡ false)
no_brackets s h = (ground (arith, h), ground (arith, h))

-- The default port, behind its colon.
pub record IsPort (port : Name) : Type 0 where
  pub no_colon : contains 58 port ≡ false
  pub no_bracket : has_bracket port ≡ false

-- An address without brackets, with one colon at most if it begins with it.
pub record IsAddress (addr : Name) : Type 0 where
  pub no_bracket : has_bracket addr ≡ false
  pub first_colon : (s : Name) → addr ≡ 58 ∷ s → contains 58 s ≡ false

-- An address that SplitHostPort splits, and that is kept when it is normalized once more.
pub record IsSettled (port addr : Name) : Type 0 where
  pub splits : has_port addr ≡ true
  pub kept : normalize_addr addr port ≡ addr

settled :
    (port : Name) (c : ℕ) (s : Name)
    → (c == 58) ≡ false
    → has_port (c ∷ s) ≡ true
    → IsSettled port (c ∷ s)
unfolding normalize_addr
settled port c s other h = record { splits = h; kept = rw (other, h) refl }

not_first : (c : ℕ) (s : Name) (b : ℕ) → contains b (c ∷ s) ≡ false → (c == b) ≡ false
unfolding contains
not_first c s b h = ground (arith, h)

later_brackets : (c : ℕ) (s : Name) → has_bracket (c ∷ s) ≡ false → has_bracket s ≡ false
unfolding contains
later_brackets c s h = ground (arith, h)

module _ (port : Name) (is_port : IsPort port) where
  plain-IsSettled :
      (c : ℕ) (s rest : Name)
      → (c == 58) ≡ false
      → has_bracket (c ∷ s) ≡ false
      → contains 58 (c ∷ s) ≡ false
      → contains 58 rest ≡ false
      → has_bracket rest ≡ false
      → IsSettled (58 ∷ port) ((c ∷ s) ++ (58 ∷ rest))
  unfolding has_port
  plain-IsSettled c s rest other no_bracket no_colon clear plain =
      let (square, _) = no_brackets (c ∷ s) no_bracket in
      let unlike : (c == 91) ≡ false = not_first c s 91 square in
      settled (58 ∷ port) c (s ++ (58 ∷ rest)) other
        (rw (unlike, split_last_colon-append (c ∷ s) rest clear, no_colon, no_bracket, plain) refl)

  localhost-IsSettled :
      (rest : Name)
      → contains 58 rest ≡ false
      → has_bracket rest ≡ false
      → IsSettled (58 ∷ port) (localhost ++ (58 ∷ rest))
  unfolding contains
  localhost-IsSettled rest clear plain =
      plain-IsSettled 108 (111 ∷ 99 ∷ 97 ∷ 108 ∷ 104 ∷ 111 ∷ 115 ∷ 116 ∷ []) rest refl refl refl
        clear plain

  bracketed-IsSettled :
      (addr : Name)
      → has_bracket addr ≡ false
      → IsSettled (58 ∷ port) (91 ∷ (addr ++ (93 ∷ 58 ∷ port)))
  unfolding has_port
  bracketed-IsSettled addr no_bracket =
      let (square, closing) = no_brackets addr no_bracket in
      settled (58 ∷ port) 91 (addr ++ (93 ∷ 58 ∷ port)) refl (
        rw
          (
            split_bracket-append addr (58 ∷ port) closing,
            is_port.no_colon,
            square,
            is_port.no_bracket,
          )
          refl)

  -- For an address without brackets, where at most one colon stands in an address that begins with it,
  -- and a default port that is a colon and then neither colons nor brackets: what normalizeAddr returns
  -- is split by SplitHostPort without an error, and normalizeAddr leaves it as it is.
  pub normalize_addr-IsSettled :
      (addr : Name) → IsAddress addr → IsSettled (58 ∷ port) (normalize_addr addr (58 ∷ port))
  unfolding normalize_addr
  normalize_addr-IsSettled [] h = localhost-IsSettled port is_port.no_colon is_port.no_bracket
  normalize_addr-IsSettled (c ∷ s) h =
      let (square, _) = no_brackets (c ∷ s) h.no_bracket in
      elim (Bool-cases (c == 58)) [
        | inl e ↦
            let same : c ≡ 58 = ground (arith, e) in
            let clear = h.first_colon s (ap (λ n. n ∷ s) same) in
            let rest = localhost-IsSettled s clear (later_brackets c s h.no_bracket) in
            rw e (subst (λ n. IsSettled (58 ∷ port) (localhost ++ (n ∷ s))) (sym same) rest)
        | inr other ↦ elim (Bool-cases (has_port (c ∷ s))) [
          | inl fine ↦ rw (other, fine) (settled (58 ∷ port) c s other fine)
          | inr bare ↦ elim (Bool-cases (contains 58 (c ∷ s))) [
            | inl colon ↦ rw (other, bare, colon, square) (bracketed-IsSettled (c ∷ s) h.no_bracket)
            | inr clear ↦
                rw (other, bare, clear)
                  (plain-IsSettled c s port other h.no_bracket clear is_port.no_colon
                    is_port.no_bracket)
          ]
        ]
      ]
