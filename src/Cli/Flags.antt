-- ===== src/Cli/Flags.antt =====
-- `(*flag.FlagSet).Parse`, as cmd/tumbleweed-cli/main.go uses it: no flag is Boolean, and the sets exit
-- on an error.
use tumbleweed.Base.{
  ◌≡◌, refl, Bool, Option, none, some, List, [], ◌∷◌, ◌||◌, not, ◌==◌, if◌then◌else◌,
}
use tumbleweed.Broker.Names.{Name, same_name}

-- What Parse leaves: the variables with the other arguments, or an exit, with 0 for a request for help
-- and with 2 for an error.
pub data Parsed (V : Type 0) : Type 0 where
  parsed : V → List Name → Parsed V
  helped refused : Parsed V

-- What an argument is, by its first bytes.
pub data Shape : Type 0 where
  no_flag terminator bad : Shape
  named : Name → Option Name → Shape

-- the name of a flag, and what stands behind '='
abbrev pub split_at_equals : Name → Name × Option Name
split_at_equals [] = ([], none)
split_at_equals (c ∷ s) =
    let (name, value) = split_at_equals s in if c == 61 then ([], some s) else (c ∷ name, value)

-- behind the dashes
abbrev pub dashed : Name → Shape
dashed [] = terminator
dashed (c ∷ s) =
    let (name, value) = split_at_equals (c ∷ s) in
    if c == 45 || c == 61 then bad else named name value

unfoldable pub shape : Name → Shape
shape [] = no_flag
shape (c ∷ []) = no_flag
shape (c ∷ d ∷ s) = if not (c == 45) then no_flag else if d == 45 then dashed s else dashed (d ∷ s)

-- "help" and "h"
abbrev pub is_help : Name → Bool
is_help name = same_name name (104 ∷ 101 ∷ 108 ∷ 112 ∷ []) || same_name name (104 ∷ [])

-- `defined` has the flags, each with what sets its variable.
module _ {V : Type 0} (defined : Name → Option (Name → V → Option V)) where
  abbrev set_flag : (V → Parsed V) → Option V → Parsed V
  set_flag next none = refused
  set_flag next (some v) = next v

  -- the value behind '=', or the next argument
  abbrev assign :
      (Name → V → Option V)
      → V
      → (V → Parsed V)
      → Option (Name × (V → Parsed V))
      → Option Name
      → Parsed V
  assign set v next ahead (some x) = set_flag next (set x v)
  assign set v next none none = refused
  assign set v next (some (x, behind)) none = set_flag behind (set x v)

  abbrev pub parse_shape :
      List Name → List Name → (V → Parsed V) → Option (Name × (V → Parsed V)) → V → Shape → Parsed V
  parse_shape args rest next ahead v no_flag = parsed v args
  parse_shape args rest next ahead v terminator = parsed v rest
  parse_shape args rest next ahead v bad = refused
  parse_shape args rest next ahead v (named name value) = elim (defined name) [
    | none ↦ if is_help name then helped else refused
    | some set ↦ assign set v next ahead value
  ]

  unfoldable pub parse_flags : V → List Name → Parsed V
  parse_flags v [] = parsed v []
  parse_flags v (s ∷ []) = parse_shape (s ∷ []) [] (λ v'. parsed v' []) none v (shape s)
  parse_flags v (s ∷ x ∷ rest) =
      parse_shape (s ∷ x ∷ rest) (x ∷ rest) (λ v'. parse_flags v' (x ∷ rest))
        (some (x, λ v'. parse_flags v' rest)) v (shape s)

  -- An argument that is no flag ends the flags.
  pub parse_flags-no_flag :
      (v : V) (s : Name) (rest : List Name)
      → shape s ≡ no_flag
      → parse_flags v (s ∷ rest) ≡ parsed v (s ∷ rest)
  unfolding parse_flags
  parse_flags-no_flag v s [] e = rw e refl
  parse_flags-no_flag v s (x ∷ rest) e = rw e refl
