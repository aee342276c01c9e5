-- ===== src/Broker/History/Safety.antt =====
-- pkg/broker/coordinator.go: what a group has settled was answered, through its restarts.
use tumbleweed.Base.{
  ℕ, ◌+◌, ◌^◌, ◌≤◌, ◌<◌, ◌≡◌, refl, sym, ap, subst, ◌∙◌, inl, inr, Option, none, List, [], ◌∷◌,
  length, Bool, true, false, ◌||◌, ◌&&◌, Option-cases, if_cases, ltb, lt→ltb, ◌==◌, Result, ok,
  arith,
}
use tumbleweed.Protocol.FetchResponse.{Message}
use tumbleweed.Wal.Encoding.{Record}
use tumbleweed.Broker.Leases.{Lease, lookup, insert, length-insert}
use tumbleweed.Broker.Group.{Group, PendingFetch, persist_state, ack_group, nack_group, nack_lease}
use tumbleweed.Broker.Group.Window.{IsSavedBehind, slide_window-IsSavedBehind}
use tumbleweed.Broker.Group.Settled.{settled, ack_group-Acks, nack_group-Nacks}
use tumbleweed.Broker.Group.Order.{InOrder, ack_group-InOrder, nack_group-InOrder}
use tumbleweed.Broker.Fetch.{FetchCall, fetch_available}
use tumbleweed.Broker.Fetch.Delivered.{Delivered, Exhausted}
use tumbleweed.Broker.Fetch.Fetched.{fetch_available-Delivered}
use tumbleweed.Broker.Topics.{World, new_group, loaded_group}
use tumbleweed.Broker.History.{
  State, Surroundings, Step, appended, acknowledged, refused, delivered, restarted,
  restarted_afresh, Reach, here, next, first_state, is_exhausted,
}

-- What holds of a group at all times: its offsets are handed out without a gap, up to `until`, which is
-- within the log; what is settled was answered; and the state file is not ahead.
pub record IsSafe (s : State) : Type 0 where
  pub until : ℕ
  pub order : InOrder s.group until
  pub within : until ≤ s.log_end
  pub countable : s.log_end < 2 ^ 64
  pub only_answered : (o : ℕ) → settled s.group o ≡ true → s.answered o ≡ true
  pub saved : IsSavedBehind s.group

pub ack_group-IsSavedBehind :
    (save_ok : Bool) (g : Group) (offset : ℕ)
    → g.committed_offset + length g.leases < 2 ^ 64
    → IsSavedBehind g
    → IsSavedBehind (ack_group save_ok g offset).0
unfolding ack_group
ack_group-IsSavedBehind save_ok g offset small h =
    let P = λ (p : Group × Result (Unit {0})). IsSavedBehind p.0 in
    if_cases P (ltb offset g.committed_offset) _ _ (λ _. h)
      (λ _. elim (Option-cases (lookup offset g.leases)) [
        | inl absent ↦ rw absent h
        | inr (l, at) ↦ rw at (
            slide_window-IsSavedBehind save_ok
              (record g { leases = insert offset (record l { acked = true }) g.leases })
              (omega (arith, length-insert offset (record l { acked = true }) g.leases l at)) h)
      ])

nack_lease-IsSavedBehind :
    (now : ℕ) (g : Group) (fetches : List PendingFetch) (offset : ℕ) (l : Lease)
    → IsSavedBehind g
    → IsSavedBehind (nack_lease now offset g l fetches).0
nack_lease-IsSavedBehind now g [] offset l h = h
nack_lease-IsSavedBehind now g (pf ∷ fetches) offset l h = h

pub nack_group-IsSavedBehind :
    (now : ℕ) (g : Group) (fetches : List PendingFetch) (offset : ℕ)
    → IsSavedBehind g
    → IsSavedBehind (nack_group now g fetches offset).0
unfolding nack_group
nack_group-IsSavedBehind now g fetches offset h = elim (Option-cases (lookup offset g.leases)) [
  | inl absent ↦ rw (absent, nack_group) h
  | inr (l, at) ↦
      rw (at, nack_group)
        (if_cases
          (λ (p : Group × List PendingFetch × Result (Option PendingFetch)). IsSavedBehind p.0)
          l.acked _ _ (λ _. h) (λ _. nack_lease-IsSavedBehind now g fetches offset l h))
]

-- An Ack that succeeds settles its offset and no other.
ack_settled :
    (save_ok : Bool) (g : Group) (offset o : ℕ)
    → g.committed_offset + length g.leases < 2 ^ 64
    → (ack_group save_ok g offset).1 ≡ ok tt
    → settled (ack_group save_ok g offset).0 o ≡ (offset == o || settled g o)
ack_settled save_ok g offset o small done = elim (ack_group-Acks save_ok g offset small) [
  | inl (_, all) ↦ all o
  | inr (failed, _, _, _) ↦ absurd (cc)
]

-- A Nack settles nothing.
nack_settled :
    (now : ℕ) (g : Group) (fetches : List PendingFetch) (offset o : ℕ)
    → settled (nack_group now g fetches offset).0 o ≡ settled g o
nack_settled now g fetches offset o = elim (nack_group-Nacks now g fetches offset) [
  | inl (_, _, all, _) ↦ all o
  | inr (_, same, _, _) ↦ ap (λ t. settled t o) same
]

or_mono : (a b c : Bool) → (a || b) ≡ true → (b ≡ true → c ≡ true) → (a || c) ≡ true
or_mono true b c h k = refl
or_mono false b c h k = k h

or_left : (a b : Bool) → a ≡ true → (a || b) ≡ true
or_left true b h = refl
or_left false b h = absurd (cc)

or_second : (a b : Bool) → b ≡ true → (a || b) ≡ true
or_second true b h = refl
or_second false b h = h

Exhausted-true :
    (c : FetchCall) (g : Group) (o : ℕ)
    → Exhausted c g o
    → is_exhausted c (lookup o g.leases) ≡ true
Exhausted-true c g o (l, at, due, spent) = ap (is_exhausted c) at ∙ rw (due, spent) refl

loaded_settled : (n o : ℕ) → settled (loaded_group n) o ≡ true → o < n
unfolding lookup
loaded_settled n o e = ground (arith, e)

pub loaded-InOrder : (n : ℕ) → InOrder (loaded_group n) n
unfolding lookup
loaded-InOrder n = record {
  behind = omega arith;
  unique = tt;
  leased = λ o low high. absurd (omega arith);
  free = λ o high. refl;
  done = λ o low. refl;
  counted = omega arith;
}

unsaved-InOrder : InOrder (record { committed_offset = 0; leases = []; saved = none }) 0
unfolding lookup
unsaved-InOrder = record {
  behind = omega arith;
  unique = tt;
  leased = λ o low high. absurd (omega arith);
  free = λ o high. refl;
  done = λ o low. refl;
  counted = omega arith;
}

pub first_state-IsSafe : (log_end : ℕ) → log_end < 2 ^ 64 → IsSafe (first_state log_end)
unfolding lookup
first_state-IsSafe log_end small = record {
  until = 0;
  order = unsaved-InOrder;
  within = omega arith;
  countable = small;
  only_answered = λ o e. ground (arith, e);
  saved = λ n e. absurd (cc);
}

delivered-IsSafe :
    (s : State) {B : Type 0} (read : ℕ → Result Record)
    (produce : B → List ℕ → List ℕ → B × Result ℕ) (c : FetchCall) (b : B)
    (out : B × Group × List Message)
    → IsSafe s
    → Surroundings read produce
    → c.max_count < 2 ^ 32
    → fetch_available read produce c s.log_end b s.group ≡ ok out
    → IsSafe (record s {
      group = out.1;
      answered = λ o. is_exhausted c (lookup o s.group.leases) || s.answered o;
    })
delivered-IsSafe s read produce c b out h around countable returned =
    let (out', until', e, d, up, high, _) =
      fetch_available-Delivered read produce c around.calm_read around.calm_produce
        around.read_offset s.group h.until s.log_end b h.order h.within h.countable countable in
    let same : out' ≡ out = cc in
    let d' =
      subst (λ (x : _ × Group × List Message). Delivered read c s.group until' x.1 x.2) same d in
    record {
      until = until';
      order = d'.order;
      within = high;
      countable = h.countable;
      only_answered = λ o x. elim (d'.only o x) [
        | inl was ↦ or_second _ _ (h.only_answered o was)
        | inr spent ↦ or_left _ _ (Exhausted-true c s.group o spent)
      ];
      saved = d'.saved h.saved;
    }

both : (a b : Bool) → a ≡ true → b ≡ true → (a && b) ≡ true
both a b h k = rw (h, k) refl

-- Nothing is settled in a group that is new, whether or not its state file is written.
new_group-IsSafe :
    (w : World) (answered : ℕ → Bool) (m : ℕ)
    → m < 2 ^ 64
    → IsSafe (record { group = new_group w; log_end = m; answered = answered })
unfolding persist_state lookup
new_group-IsSafe w answered m small =
    if_cases (λ g. IsSafe (record { group = g; log_end = m; answered = answered })) w.save_ok _ _
      (λ _. record {
        until = 0;
        order = loaded-InOrder 0;
        within = omega arith;
        countable = small;
        only_answered = λ o e. ground (arith, e);
        saved = λ n e. let same : 0 ≡ n = cc in omega (arith, same);
      })
      (λ _. record {
        until = 0;
        order = unsaved-InOrder;
        within = omega arith;
        countable = small;
        only_answered = λ o e. ground (arith, e);
        saved = λ n e. absurd (cc);
      })

Step-IsSafe : {s t : State} → Step s t → IsSafe s → IsSafe t
Step-IsSafe (appended s small) h = record {
  until = h.until;
  order = h.order;
  within = omega (arith, h.within);
  countable = small;
  only_answered = h.only_answered;
  saved = h.saved;
}
Step-IsSafe (acknowledged s save_ok offset done) h =
    let small : s.group.committed_offset + length s.group.leases < 2 ^ 64 =
      omega (arith, h.order.counted, h.within, h.countable) in
    record {
      until = h.until;
      order =
          ack_group-InOrder save_ok s.group offset h.until h.order
            (omega (arith, h.within, h.countable));
      within = h.within;
      countable = h.countable;
      only_answered = λ o e.
          or_mono (offset == o) (settled s.group o) (s.answered o)
            (sym (ack_settled save_ok s.group offset o small done) ∙ e) (h.only_answered o);
      saved = ack_group-IsSavedBehind save_ok s.group offset small h.saved;
    }
Step-IsSafe (refused s now fetches offset) h = record {
  until = h.until;
  order = nack_group-InOrder now s.group fetches offset h.until h.order;
  within = h.within;
  countable = h.countable;
  only_answered = λ o e. h.only_answered o (sym (nack_settled now s.group fetches offset o) ∙ e);
  saved = nack_group-IsSavedBehind now s.group fetches offset h.saved;
}
Step-IsSafe (delivered s read produce c b out around countable returned) h =
    delivered-IsSafe s read produce c b out h around countable returned
Step-IsSafe (restarted s n m at enough shorter) h =
    let behind = h.saved n at in
    record {
      until = n;
      order = loaded-InOrder n;
      within = enough;
      countable = omega (arith, shorter, h.countable);
      only_answered = λ o e.
          let low = loaded_settled n o e in
          let below : ltb o s.group.committed_offset ≡ true = ground (arith, low, behind) in
          both (ltb o m) (s.answered o) (lt→ltb o m (omega (arith, low, enough)))
            (h.only_answered o (or_left _ _ below));
      saved = λ k e. let same : n ≡ k = cc in omega (arith, same);
    }
Step-IsSafe (restarted_afresh s w m shorter) h =
    new_group-IsSafe w _ m (omega (arith, shorter, h.countable))

-- From a safe state, such as that of a new group on a log that is shorter than 2 ^ 64, every state that
-- appends, Acks, Nacks, fetches that return and restarts lead to is safe: the group hands out its offsets
-- without a gap and not ahead of the log, the state file is not ahead of the group, and an offset is
-- settled only if a consumer acknowledged it, or a fetch found its lease expired and delivered as often
-- as allowed, since the log last lost that offset. A restart may lose the end of the log: with the
-- group's state file, if the log keeps the offsets in front of the committed one; or without a file.
pub Reach-IsSafe : {s t : State} → IsSafe s → Reach s t → IsSafe t
Reach-IsSafe h here = h
Reach-IsSafe h (next r st) = Step-IsSafe st (Reach-IsSafe h r)
