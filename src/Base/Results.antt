-- ===== src/Base/Results.antt =====
-- Go's (value, error) pairs: `ok v` is (v, nil), and `err e` is an error, named after the source's
-- error values. `panics` is a run-time panic, and `blocked` a call that waits for ever.

use Prim.Native.Nat.{ℕ}
use mathlib.Core.List.{List}
use mathlib.Core.Path.{◌≡◌}
use mathlib.Core.Option.{Option, none, some}

pub data Error : Type 0 where
  malformed eof unexpected_eof io : Error
  wal_closed record_corrupt offset_not_found : Error
  topic_not_found lease_not_found : Error
  broker_error : ℕ → List ℕ → Error
  unexpected_type : ℕ → Error
  panics blocked : Error

-- The error value comes first, as in the source's early returns.
pub data Result {ℓ} (V : Type ℓ) : Type ℓ where
  err : (problem : Error) → Result V
  ok : (value : V) → Result V

-- `if err != nil { return …, err }` between two calls
infixl 5 ◌>>=◌
abbrev pub ◌>>=◌ {κ ℓ} : {V : Type κ} {W : Type ℓ} → Result V → (V → Result W) → Result W
err problem >>= next = err problem
ok value >>= next = next value

-- What a caller does that goes on after an error: a panic and a call that waits for ever still end it.
abbrev pub attempt {ℓ} : {V : Type ℓ} → Result V → Result (Option V)
attempt (ok value) = ok (some value)
attempt (err panics) = err panics
attempt (err blocked) = err blocked
attempt (err _) = ok none

pub attempt-some {ℓ} : {V : Type ℓ} (r : Result V) (v : V) → attempt r ≡ ok (some v) → r ≡ ok v
attempt-some (ok a) v e = cc
attempt-some (err panics) v e = absurd (cc)
attempt-some (err blocked) v e = absurd (cc)
attempt-some (err _) v e = absurd (cc)

-- A chain of calls that ends with a value has the values in between.
pub bind-ok {κ ℓ} :
    {V : Type κ} {W : Type ℓ} (r : Result V) (next : V → Result W) (w : W)
    → (r >>= next) ≡ ok w
    → (v : V) × (r ≡ ok v) × (next v ≡ ok w)
bind-ok (ok v) next w e = (v, (λ i. ok v), e)
bind-ok (err problem) next w e = absurd (cc)
