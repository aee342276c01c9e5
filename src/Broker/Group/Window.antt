-- ===== src/Broker/Group/Window.antt =====
-- pkg/broker/coordinator.go, slideWindow and Ack: how far the committed offset moves.
use tumbleweed.Base.{
  ℕ, zero, suc, ◌+◌, ◌%◌, ◌^◌, ◌≤◌, ◌<◌, ◌≡◌, refl, sym, ap, ◌∙◌, inl, inr, Option, none, some, [],
  ◌∷◌, length, Bool, true, false, Bool-cases, if_cases, ◌==◌, arith,
}
use tumbleweed.Broker.Leases.{
  Lease, Leases, lookup, delete, lookup-delete, length-delete-lt, Unique, delete-Unique,
}
use tumbleweed.Broker.Group.{Group, persist_state, is_acked, slide_loop, slide_window}

-- `g'` is `g` with the window moved up: past acknowledged offsets only, up to the first that is not
-- acknowledged. The leases that it passed are gone, and the others are what they were.
pub record Slid (g g' : Group) : Type 0 where
  pub forward : g.committed_offset ≤ g'.committed_offset
  pub stopped : is_acked (lookup g'.committed_offset g'.leases) ≡ false
  pub passed :
      (o : ℕ)
      → g.committed_offset ≤ o
      → o < g'.committed_offset
      → (is_acked (lookup o g.leases) ≡ true) × (lookup o g'.leases ≡ none)
  pub kept : (o : ℕ) → g'.committed_offset ≤ o → lookup o g'.leases ≡ lookup o g.leases
  pub below : (o : ℕ) → o < g.committed_offset → lookup o g'.leases ≡ lookup o g.leases
  pub room : g'.committed_offset + length g'.leases ≤ g.committed_offset + length g.leases

Slid-here : (g : Group) → is_acked (lookup g.committed_offset g.leases) ≡ false → Slid g g
Slid-here g e = record {
  forward = omega arith;
  stopped = e;
  passed = λ o h k. absurd (omega arith);
  kept = λ o h. refl;
  below = λ o h. refl;
  room = omega arith;
}

abbrev next_of : Group → Group
next_of g = record g {
  leases = delete g.committed_offset g.leases;
  committed_offset = (g.committed_offset + 1) % 2 ^ 64;
}

Slid-on :
    (g g' : Group)
    → g.committed_offset + 1 < 2 ^ 64
    → is_acked (lookup g.committed_offset g.leases) ≡ true
    → length (delete g.committed_offset g.leases) < length g.leases
    → Slid (next_of g) g'
    → Slid g g'
Slid-on g g' small e fewer s =
    let c = g.committed_offset in
    let c' : (c + 1) % 2 ^ 64 ≡ c + 1 = omega arith in
    record {
      forward = omega (arith, s.forward);
      stopped = s.stopped;
      passed = λ o h k. elim (Bool-cases (c == o)) [
        | inl same ↦
            let z : c ≡ o = ground (arith, same) in
            (
              ap (λ n. is_acked (lookup n g.leases)) (sym z) ∙ e,
              s.below o (omega (arith, z)) ∙ ground (arith, z, lookup-delete c o g.leases),
            )
        | inr other ↦
            let (p, q) = s.passed o (ground (arith, other)) k in
            let there : lookup o (delete c g.leases) ≡ lookup o g.leases =
              ground (arith, other, lookup-delete c o g.leases) in
            (ap is_acked (sym there) ∙ p, q)
      ];
      kept = λ o h. ground (arith, s.kept o h, s.forward, lookup-delete c o g.leases);
      below = λ o h. ground (arith, s.below o (omega arith), lookup-delete c o g.leases);
      room = omega (arith, s.room, fewer);
    }

acked_lease : (o : Option Lease) → is_acked o ≡ true → (l : Lease) × (o ≡ some l)
acked_lease none e = cc
acked_lease (some l) e = (l, refl)

lookup-empty : (k : ℕ) (m : Leases) → length m ≤ 0 → lookup k m ≡ none
unfolding lookup
lookup-empty k [] h = refl
lookup-empty k (x ∷ m) h = absurd (omega arith)

slide_loop-Slid :
    (fuel : ℕ) (g : Group)
    → length g.leases ≤ fuel
    → g.committed_offset + length g.leases < 2 ^ 64
    → Slid g (slide_loop fuel g)
unfolding slide_loop
slide_loop-Slid zero g h small =
    Slid-here g (ap is_acked (lookup-empty g.committed_offset g.leases h))
slide_loop-Slid (suc fuel) g h small =
    elim (Bool-cases (is_acked (lookup g.committed_offset g.leases))) [
      | inr e ↦ rw (e, slide_loop) (Slid-here g e)
      | inl e ↦
          let (l, at) = acked_lease _ e in
          let fewer = length-delete-lt g.committed_offset g.leases l at in
          rw (e, slide_loop)
            (Slid-on g _ (omega (arith, fewer)) e fewer
              (slide_loop-Slid fuel (next_of g) (omega (arith, fewer)) (omega (arith, fewer))))
    ]

slide_loop-Unique : (fuel : ℕ) (g : Group) → Unique g.leases → Unique (slide_loop fuel g).leases
unfolding slide_loop
slide_loop-Unique zero g u = u
slide_loop-Unique (suc fuel) g u =
    elim (Bool-cases (is_acked (lookup g.committed_offset g.leases))) [
      | inr e ↦ rw (e, slide_loop) u
      | inl e ↦
          rw (e, slide_loop)
            (slide_loop-Unique fuel (next_of g) (delete-Unique g.committed_offset g.leases u))
    ]

-- Saving the offset changes nothing that is in memory.
persist_state-Slid : (save_ok : Bool) (g g' : Group) → Slid g g' → Slid g (persist_state save_ok g')
unfolding persist_state
persist_state-Slid true g g' s = record {
  forward = s.forward;
  stopped = s.stopped;
  passed = s.passed;
  kept = s.kept;
  below = s.below;
  room = s.room;
}
persist_state-Slid false g g' s = s

-- With fewer than 2 ^ 64 offsets up to the last one that can be leased, slideWindow stops, and it
-- moves the committed offset past acknowledged offsets only, up to the first that is not
-- acknowledged; it drops the leases that it passed and no other, and the sum of the committed offset
-- and the number of leases does not grow.
pub slide_window-Slid :
    (save_ok : Bool) (g : Group)
    → g.committed_offset + length g.leases < 2 ^ 64
    → Slid g (slide_window save_ok g)
unfolding slide_window
slide_window-Slid save_ok g small =
    let s = slide_loop-Slid (length g.leases) g (omega arith) small in
    if_cases (Slid g) (is_acked (lookup g.committed_offset g.leases)) _ _
      (λ a. persist_state-Slid save_ok g _ s) (λ a. s)

pub slide_window-Unique :
    (save_ok : Bool) (g : Group) → Unique g.leases → Unique (slide_window save_ok g).leases
unfolding slide_window persist_state
slide_window-Unique save_ok g u =
    let loop : Unique (slide_loop (length g.leases) g).leases =
      slide_loop-Unique (length g.leases) g u in
    let P = λ (g' : Group). Unique g'.leases in
    if_cases P (is_acked (lookup g.committed_offset g.leases)) _ _
      (λ _. if_cases P save_ok _ _ (λ _. loop) (λ _. loop)) (λ _. loop)

slide_loop-saved : (fuel : ℕ) (g : Group) → (slide_loop fuel g).saved ≡ g.saved
unfolding slide_loop
slide_loop-saved zero g = refl
slide_loop-saved (suc fuel) g = elim (Bool-cases (is_acked (lookup g.committed_offset g.leases))) [
  | inr e ↦ rw (e, slide_loop) refl
  | inl e ↦ rw (e, slide_loop) (slide_loop-saved fuel (next_of g))
]

-- The offset in the state file is not ahead of the one in memory.
abbrev pub IsSavedBehind : Group → Type 0
IsSavedBehind g = (n : ℕ) → g.saved ≡ some n → n ≤ g.committed_offset

pub slide_window-IsSavedBehind :
    (save_ok : Bool) (g : Group)
    → g.committed_offset + length g.leases < 2 ^ 64
    → IsSavedBehind g
    → IsSavedBehind (slide_window save_ok g)
unfolding slide_window persist_state
slide_window-IsSavedBehind save_ok g small h =
    let g' = slide_loop (length g.leases) g in
    let s = slide_loop-Slid (length g.leases) g (omega arith) small in
    let kept : IsSavedBehind g' =
      λ n e. omega (arith, s.forward, h n (sym (slide_loop-saved (length g.leases) g) ∙ e)) in
    if_cases IsSavedBehind (is_acked (lookup g.committed_offset g.leases)) _ _
      (λ _.
        if_cases IsSavedBehind save_ok _ _
          (λ _ n e. let same : g'.committed_offset ≡ n = cc in omega (arith, same)) (λ _. kept))
      (λ _. kept)
