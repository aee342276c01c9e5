-- ===== src/Server/Lifecycle/Shutdown.antt =====
-- pkg/server/server.go: what follows once Stop has closed the listener.
use tumbleweed.Base.{
  ℕ, suc, ◌+◌, ◌≤◌, ◌≡◌, refl, ap, ◌⊎◌, inl, inr, Bool, true, false, if_cases, Result, ok, arith,
}
use tumbleweed.Server.Lifecycle.{
  StartAt, not_started, bound, accepting, accepted, checking, returned, Lifecycle, check_closed,
  Step, listens, fails_to_listen, publishes, accepts, fails_to_accept, adds, reads_closed, finishes,
  stops, stops_again, closes, waited, Reach, here, next,
}

-- How many steps are left of Start without a listener, and how many connections it has in hand.
abbrev left : StartAt → ℕ
left accepted = 3
left accepting = 2
left checking = 1
left _ = 0

abbrev in_hand : StartAt → ℕ
in_hand accepted = 1
in_hand _ = 0

abbrev pub in_loop : StartAt → Bool
in_loop not_started = false
in_loop bound = false
in_loop _ = true

-- Start is in its loop or done, and Stop has closed the listener.
pub record IsShutDown (s : Lifecycle) : Type 0 where
  pub closed : s.closed ≡ true
  pub deaf : s.listening ≡ false
  pub looping : in_loop s.start ≡ true

-- Between two states: Start has not made more steps, nor connections, than were left.
pub record Ends (s t : Lifecycle) : Type 0 where
  pub down : IsShutDown t
  pub turns : t.turns + left t.start ≤ s.turns + left s.start
  pub served : t.served + in_hand t.start ≤ s.served + in_hand s.start

-- Start goes on from one place in its loop to another.
turned :
    (s t : Lifecycle) (at : StartAt) (active served : ℕ)
    → Ends s t
    → in_loop at ≡ true
    → suc (left at) ≤ left t.start
    → served + in_hand at ≤ t.served + in_hand t.start
    → Ends s (record t { start = at; active = active; served = served; turns = suc t.turns })
turned s t at active served h looping fewer kept = record {
  down = record { closed = h.down.closed; deaf = h.down.deaf; looping = looping };
  turns = omega (arith, h.turns, fewer);
  served = omega (arith, h.served, kept);
}

outside : (at other : StartAt) → at ≡ other → in_loop at ≡ true → in_loop other ≡ false → ⊥
outside at other e inside out = let same : in_loop at ≡ in_loop other = ap in_loop e in absurd (cc)

Step-Ends : (s t u : Lifecycle) → Step t u → Ends s t → Ends s u
Step-Ends s t u (listens _ e) h = absurd (outside t.start _ e h.down.looping refl)
Step-Ends s t u (fails_to_listen _ e) h = absurd (outside t.start _ e h.down.looping refl)
Step-Ends s t u (publishes _ e) h = absurd (outside t.start _ e h.down.looping refl)
Step-Ends s t u (accepts _ e heard) h = absurd (let deaf = h.down.deaf in cc)
Step-Ends s t u (fails_to_accept _ e) h =
    turned s t checking t.active t.served h refl (omega (arith, ap left e))
      (omega (arith, ap in_hand e))
Step-Ends s t u (adds _ e) h =
    turned s t accepting (suc t.active) (suc t.served) h refl (omega (arith, ap left e))
      (omega (arith, ap in_hand e))
Step-Ends s t u (reads_closed _ e) h =
    let last : check_closed t.closed ≡ returned (ok tt) = ap check_closed h.down.closed in
    turned s t (check_closed t.closed) t.active t.served h (ap in_loop last)
      (omega (arith, ap left e, ap left last)) (omega (arith, ap in_hand e, ap in_hand last))
Step-Ends s t u (finishes _ n e) h = record {
  down = record { closed = h.down.closed; deaf = h.down.deaf; looping = h.down.looping };
  turns = h.turns;
  served = h.served;
}
Step-Ends s t u (stops _ e) h = absurd (let closed = h.down.closed in cc)
Step-Ends s t u (stops_again _ e) h = h
Step-Ends s t u (closes _ e) h = record {
  down = record {
    closed = h.down.closed;
    deaf = if_cases (λ b. b ≡ false) t.published false t.listening (λ _. refl) (λ _. h.down.deaf);
    looping = h.down.looping;
  };
  turns = h.turns;
  served = h.served;
}
Step-Ends s t u (waited _ e zero) h = record {
  down = record { closed = h.down.closed; deaf = h.down.deaf; looping = h.down.looping };
  turns = h.turns;
  served = h.served;
}

Reach-Ends : (s t : Lifecycle) → Reach s t → IsShutDown s → Ends s t
Reach-Ends s t here h = record { down = h; turns = omega arith; served = omega arith }
Reach-Ends s t (next {t = m} r st) h = Step-Ends s m t st (Reach-Ends s m r h)

left-most : (at : StartAt) → left at ≤ 3
left-most not_started = omega arith
left-most bound = omega arith
left-most accepting = omega arith
left-most accepted = omega arith
left-most checking = omega arith
left-most (returned r) = omega arith

in_hand-most : (at : StartAt) → in_hand at ≤ 1
in_hand-most not_started = omega arith
in_hand-most bound = omega arith
in_hand-most accepting = omega arith
in_hand-most accepted = omega arith
in_hand-most checking = omega arith
in_hand-most (returned r) = omega arith

-- Start has returned, or it can make a step.
abbrev pub Moves : Lifecycle → Type 0
Moves t =
    ((r : Result (Unit {0})) × (t.start ≡ returned r))
    ⊎ ((u : Lifecycle) × Step t u × (u.turns ≡ suc t.turns))

step_or_end : (t : Lifecycle) (at : StartAt) → t.start ≡ at → in_loop at ≡ true → Moves t
step_or_end t not_started e looping = absurd (cc)
step_or_end t bound e looping = absurd (cc)
step_or_end t accepting e looping = inr (_, fails_to_accept t e, refl)
step_or_end t accepted e looping = inr (_, adds t e, refl)
step_or_end t checking e looping = inr (_, reads_closed t e, refl)
step_or_end t (returned r) e looping = inl (r, e)

-- From the moment at which Stop has closed the listener of a Start that has published it, in whatever
-- order Start, Stop and the connections go on: Start has returned or can go on by itself, it goes on by
-- three steps at most, and it hands at most one more connection to handleConnection.
pub Reach-IsShutDown :
    (s t : Lifecycle)
    → IsShutDown s
    → Reach s t
    → Moves t × (t.turns ≤ s.turns + 3) × (t.served ≤ s.served + 1)
Reach-IsShutDown s t h r =
    let ends = Reach-Ends s t r h in
    (
      step_or_end t t.start refl ends.down.looping,
      omega (arith, ends.turns, left-most s.start),
      omega (arith, ends.served, in_hand-most s.start),
    )
