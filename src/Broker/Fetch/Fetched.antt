-- ===== src/Broker/Fetch/Fetched.antt =====
-- pkg/broker/coordinator.go, fetchAvailable as a whole.
use tumbleweed.Base.{
  ℕ, zero, suc, ◌+◌, ◌-◌, ◌%◌, ◌^◌, ◌≤◌, ◌<◌, ◌≡◌, refl, sym, ap, subst, ◌∙◌, ◌⊎◌, inl, inr, none,
  List, [], ◌∷◌, ◌++◌, length, length-append, true, false, not, ◌&&◌, Bool-cases, Option-cases, ltb,
  ◌==◌, All, Result, ok, attempt, attempt-some, arith,
}
use tumbleweed.Protocol.FetchResponse.{Message}
use tumbleweed.Wal.Encoding.{Record}
use tumbleweed.Broker.Leases.{lookup-insert}
use tumbleweed.Broker.Group.{Group}
use tumbleweed.Broker.Group.Settled.{settled, lookup-inserted}
use tumbleweed.Broker.Group.Order.{InOrder, extend-InOrder}
use tumbleweed.Broker.Sort.{sort_offsets}
use tumbleweed.Broker.Fetch.{
  FetchCall, message_of, new_lease, set_lease, is_full, deliver_new, fetch_available,
  expired_offsets,
}
use tumbleweed.Broker.Fetch.Next.{next_expected-InOrder}
use tumbleweed.Broker.Fetch.Expired.{Apart, IsDue, sorted_expired}
use tumbleweed.Broker.Fetch.Delivered.{Held, offsets_of, Delivered, set_lease-Keeps, All-Held}
use tumbleweed.Broker.Fetch.Again.{
  IsCalm, IsWaiting, All-snoc, offsets_of-append, deliver_expired-Delivered,
}

-- An offset that is held is below the next one.
Held-Apart :
    (c : FetchCall) (g : Group) (next : ℕ) (os : List ℕ)
    → InOrder g next
    → All (Held c g) os
    → All (λ k. Apart k next) os
Held-Apart c g next [] h held = tt
Held-Apart c g next (k ∷ os) h ((l, at, _, _, _), held) =
    let different : (k == next) ≡ false = elim (Bool-cases (k == next)) [
      | inr e ↦ e
      | inl e ↦ let f = h.free k (ground (arith, e)) in absurd (cc)
    ] in
    (different, Held-Apart c g next os h held)

module _ (read : ℕ → Result Record) (c : FetchCall) where
  -- Where the loop over new offsets ends: the fetch is full, or the log is at its end, or it cannot
  -- read the next record.
  abbrev pub Ended : ℕ → ℕ → List Message → Type 0
  Ended wal_next next msgs =
      (is_full c msgs ≡ true) ⊎ ((next ≡ wal_next) ⊎ (attempt (read next) ≡ ok none))

  stopped :
      (wal_next next : ℕ) (msgs : List Message)
      → next ≤ wal_next
      → (ltb next wal_next && not (is_full c msgs)) ≡ false
      → Ended wal_next next msgs
  stopped wal_next next msgs low over = elim (Bool-cases (is_full c msgs)) [
    | inl full ↦ inl full
    | inr room ↦ inr (inl (ground (arith, over, room)))
  ]

module _ (read : ℕ → Result Record) (c : FetchCall) (start : Group) where
  new_settled :
      (g : Group) (next k : ℕ)
      → InOrder g next
      → settled (set_lease g next (new_lease c next)) k ≡ settled g k
  new_settled g next k h =
      ground (arith, lookup-insert next k (new_lease c next) g.leases, h.free k)

  new_Delivered :
      (g : Group) (msgs : List Message) (next : ℕ) (rec : Record)
      → Delivered read c start next g msgs
      → read next ≡ ok rec
      → rec.offset ≡ next
      → length msgs < c.max_count
      → Delivered read c start
          (next + 1)
          (set_lease g next (new_lease c next))
          (msgs ++ (message_of rec ∷ []))
  new_Delivered g msgs next rec h found offset room =
      let g' = set_lease g next (new_lease c next) in
      record {
        order = extend-InOrder g next (new_lease c next) h.order;
        short = omega (arith, room, length-append msgs (message_of rec ∷ []));
        held = subst (All (Held c g')) (sym (offsets_of-append msgs (message_of rec))) (
            All-snoc (Held c g') (offsets_of msgs) rec.offset
              (All-Held c g g' next (offsets_of msgs) (set_lease-Keeps g next (new_lease c next))
                (Held-Apart c g next (offsets_of msgs) h.order h.held) h.held)
              (subst (Held c g') (sym offset) (
                new_lease c next,
                lookup-inserted next (new_lease c next) g.leases,
                refl,
                refl,
                refl,
              )));
        sent = All-snoc _ msgs (message_of rec) h.sent (rec, ap read offset ∙ found, refl);
        kept = λ k e. new_settled g next k h.order ∙ h.kept k e;
        only = λ k e. h.only k (sym (new_settled g next k h.order) ∙ e);
        saved = λ b. h.saved b;
      }

  deliver_new-Delivered :
      (fuel wal_next next : ℕ) (g : Group) (msgs : List Message)
      → ((o : ℕ) → IsCalm (read o))
      → ((o : ℕ) (rec : Record) → read o ≡ ok rec → rec.offset ≡ o)
      → c.max_count < 2 ^ 32
      → wal_next < 2 ^ 64
      → next ≤ wal_next
      → wal_next ≤ next + fuel
      → Delivered read c start next g msgs
      → (s : Group × List Message) × (next' : ℕ) × (deliver_new read c fuel wal_next next g msgs
          ≡ ok s)
        × Delivered read c start next' s.0 s.1
        × (next ≤ next')
        × (next' ≤ wal_next)
        × Ended read c wal_next next' s.1
  unfolding deliver_new
  deliver_new-Delivered zero wal_next next g msgs calm offsets countable wide low enough h =
      ((g, msgs), next, refl, h, omega arith, low, inr (inl (omega arith)))
  deliver_new-Delivered (suc fuel) wal_next next g msgs calm offsets countable wide low enough h =
      elim (Bool-cases (ltb next wal_next && not (is_full c msgs))) [
        | inr over ↦ (
          (g, msgs),
          next,
          rw over refl,
          h,
          omega arith,
          low,
          stopped read c wal_next next msgs low over,
        )
        | inl more ↦
            let room : (next < wal_next) × (length msgs < c.max_count) =
              ground (arith, more, h.short, countable) in
            let (found, e) = calm next in
            elim (Option-cases found) [
              | inl none_there ↦ (
                (g, msgs),
                next,
                rw (more, e, none_there) refl,
                h,
                omega arith,
                low,
                inr (inr (e ∙ ap ok none_there)),
              )
              | inr (rec, there) ↦
                  let got : read next ≡ ok rec = attempt-some (read next) rec (e ∙ ap ok there) in
                  let h' = new_Delivered g msgs next rec h got (offsets next rec got) room.1 in
                  let up : (next + 1) % 2 ^ 64 ≡ next + 1 = omega arith in
                  let (s, next', rest, h'', low', high', ended) =
                    deliver_new-Delivered fuel wal_next (next + 1)
                      (set_lease g next (new_lease c next)) (msgs ++ (message_of rec ∷ [])) calm
                      offsets countable wide (omega arith) (omega arith) h' in
                  let onward =
                    ap
                      (λ n.
                        deliver_new read c fuel wal_next n (set_lease g next (new_lease c next))
                          (msgs ++ (message_of rec ∷ [])))
                      up
                    ∙ rest in
                  (s, next', rw (more, e, there) onward, h'', omega (arith, low'), high', ended)
            ]
      ]

start_IsWaiting :
    (c : FetchCall) (g : Group) (os : List ℕ)
    → All (IsDue c.now g.leases) os
    → All (IsWaiting c g g) os
start_IsWaiting c g [] h = tt
start_IsWaiting c g (o ∷ os) ((l, at, due), h) = ((l, at, at, due), start_IsWaiting c g os h)

start_Delivered :
    (read : ℕ → Result Record) (c : FetchCall) (g : Group) (next : ℕ)
    → InOrder g next
    → Delivered read c g next g []
start_Delivered read c g next h = record {
  order = h;
  short = omega arith;
  held = tt;
  sent = tt;
  kept = λ o e. e;
  only = λ o e. inl e;
  saved = λ b. b;
}

module _ {B : Type 0} (read : ℕ → Result Record) (produce : B → List ℕ → List ℕ → B × Result ℕ)
    (c : FetchCall) (calm_read : (o : ℕ) → IsCalm (read o))
    (calm_produce : (b : B) (key value : List ℕ) → IsCalm (produce b key value).1)
    (read_offset : (o : ℕ) (rec : Record) → read o ≡ ok rec → rec.offset ≡ o) where
  -- On a group that hands out its offsets without a gap and is not ahead of the log, where no call
  -- panics or blocks: fetchAvailable returns. Its messages are at most as many as asked for; each is
  -- the log's record at its offset, under an unacknowledged lease of this consumer to the end of the
  -- timeout. The group still hands out without a gap, up to where the fetch is full, the log ends or
  -- cannot be read. What was settled stays so, and besides it only an expired lease that was
  -- delivered as often as allowed is settled.
  pub fetch_available-Delivered :
      (g : Group) (next wal_next : ℕ) (b : B)
      → InOrder g next
      → next ≤ wal_next
      → wal_next < 2 ^ 64
      → c.max_count < 2 ^ 32
      → (s : B × Group × List Message) × (next' : ℕ) × (fetch_available read produce c wal_next b g
          ≡ ok s)
        × Delivered read c g next' s.1 s.2
        × (next ≤ next')
        × (next' ≤ wal_next)
        × Ended read c wal_next next' s.2
  unfolding fetch_available
  fetch_available-Delivered g next wal_next b h low wide countable =
      let os = sort_offsets (expired_offsets c.now g.leases) in
      let (due, distinct) = sorted_expired c.now g.leases h.unique in
      let (s, again, h') =
        deliver_expired-Delivered read produce c calm_read calm_produce read_offset g next
          (omega (arith, low, wide)) countable os b g [] (start_Delivered read c g next h) distinct
          (start_IsWaiting c g os due) tt in
      let (t, next', new, h'', up, high, ended) =
        deliver_new-Delivered read c g (wal_next - next) wal_next next s.1 s.2 calm_read read_offset
          countable wide low (omega arith) h' in
      (
        (s.0, t.0, t.1),
        next',
        rw (again, next_expected-InOrder s.1 next h'.order (omega (arith, low, wide)), new) refl,
        h'',
        up,
        high,
        ended,
      )
