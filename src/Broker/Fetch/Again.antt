-- ===== src/Broker/Fetch/Again.antt =====
-- pkg/broker/coordinator.go, fetchAvailable: the loop over the expired leases.
use tumbleweed.Base.{
  ℕ, ◌^◌, ◌<◌, ◌≡◌, refl, sym, ap, subst, ◌∙◌, inl, inr, Option, none, some, List, [], ◌∷◌, ◌++◌,
  length, length-append, Bool, true, false, ◌||◌, Bool-cases, Option-cases, if_cases, leb, ◌==◌,
  All, Result, ok, attempt, attempt-some, arith,
}
use tumbleweed.Protocol.FetchResponse.{Message}
use tumbleweed.Wal.Encoding.{Record}
use tumbleweed.Broker.Leases.{Lease, lookup, length-insert}
use tumbleweed.Broker.Group.{Group}
use tumbleweed.Broker.Group.Window.{slide_window-IsSavedBehind}
use tumbleweed.Broker.Group.Settled.{settled, replace-settled, lookup-inserted}
use tumbleweed.Broker.Group.Order.{slide_window-InOrder, replace-InOrder}
use tumbleweed.Broker.Fetch.{
  FetchCall, is_expired, message_of, renew_lease, set_lease, is_full, divert, deliver_again,
  deliver_expired,
}
use tumbleweed.Broker.Fetch.Expired.{Apart, Distinct}
use tumbleweed.Broker.Fetch.Delivered.{
  Held, offsets_of, Delivered, Keeps, set_lease-Keeps, set_aside, set_aside-Keeps,
  set_aside-settled, All-Held,
}

-- A call that ends with a value or an error that its caller reads.
abbrev pub IsCalm : {V : Type 0} → Result V → Type 0
IsCalm {V} r = (o : Option V) × (attempt r ≡ ok o)

-- An expired lease that nobody has touched since the fetch began.
abbrev pub IsWaiting : FetchCall → Group → Group → ℕ → Type 0
IsWaiting c start g o =
    (l : Lease) × (lookup o start.leases ≡ some l)
    × (lookup o g.leases ≡ some l)
    × (is_expired c.now l ≡ true)

unacked : (now : ℕ) (l : Lease) → is_expired now l ≡ true → l.acked ≡ false
unacked now l e = ground arith

All-IsWaiting :
    (c : FetchCall) (start g g' : Group) (o : ℕ) (os : List ℕ)
    → Keeps o g g'
    → All (Apart o) os
    → All (IsWaiting c start g) os
    → All (IsWaiting c start g') os
All-IsWaiting c start g g' o [] keeps a h = tt
All-IsWaiting c start g g' o (k ∷ os) keeps (a, more) ((l, was, at, due), h) = (
  (l, was, keeps k l a at (unacked c.now l due), due),
  All-IsWaiting c start g g' o os keeps more h,
)

pub offsets_of-append :
    (msgs : List Message) (m : Message)
    → offsets_of (msgs ++ (m ∷ [])) ≡ offsets_of msgs ++ (m.offset ∷ [])
offsets_of-append [] m = refl
offsets_of-append (x ∷ msgs) m = ap (λ t. x.offset ∷ t) (offsets_of-append msgs m)

pub All-snoc {ℓ} :
    {A : Type ℓ} (P : A → Type 0) (xs : List A) (x : A) → All P xs → P x → All P (xs ++ (x ∷ []))
All-snoc P [] x h p = (p, tt)
All-snoc P (y ∷ xs) x (q, h) p = (q, All-snoc P xs x h p)

-- The offsets that wait are apart from those of the messages so far.
abbrev pub AllApart : List ℕ → List ℕ → Type 0
AllApart os sent = All (λ k. All (λ o. Apart k o) os) sent

AllApart-tail :
    (o : ℕ) (os sent : List ℕ)
    → AllApart (o ∷ os) sent
    → AllApart os sent × All (λ k. Apart k o) sent
AllApart-tail o os [] h = (tt, tt)
AllApart-tail o os (k ∷ sent) ((a, b), h) =
    let (rest, here) = AllApart-tail o os sent h in ((b, rest), (a, here))

or_true : (a b : Bool) → b ≡ true → (a || b) ≡ true
or_true true b e = refl
or_true false b e = e

or_right : (a b : Bool) → a ≡ false → (a || b) ≡ true → b ≡ true
or_right true b f e = absurd (cc)
or_right false b f e = e

module _ {B : Type 0} (read : ℕ → Result Record) (produce : B → List ℕ → List ℕ → B × Result ℕ)
    (c : FetchCall) (calm_read : (o : ℕ) → IsCalm (read o))
    (calm_produce : (b : B) (key value : List ℕ) → IsCalm (produce b key value).1)
    (read_offset : (o : ℕ) (rec : Record) → read o ≡ ok rec → rec.offset ≡ o) (start : Group)
    (next : ℕ) (small : next < 2 ^ 64) (countable : c.max_count < 2 ^ 32) where
  divert_ends : (b : B) (found : Option Record) → (b' : B) × (divert read produce c b found ≡ ok b')
  divert_ends b none = (b, refl)
  divert_ends b (some rec) =
      let (o, e) = calm_produce b rec.key rec.value in ((produce b rec.key rec.value).0, rw e refl)

  -- One expired offset, and the offsets that still wait.
  abbrev Stepped : ℕ → Group → List ℕ → Result (B × Group × List Message) → Type 0
  Stepped o g os r =
      (s : B × Group × List Message) × (r ≡ ok s)
      × Delivered read c start next s.1 s.2
      × Keeps o g s.1
      × AllApart os (offsets_of s.2)

  module _ (g : Group) (msgs : List Message) (o : ℕ) (os : List ℕ) (l : Lease)
      (h : Delivered read c start next g msgs) (was : lookup o start.leases ≡ some l)
      (at : lookup o g.leases ≡ some l) (due : is_expired c.now l ≡ true)
      (others : All (Apart o) os) (sent_others : AllApart (o ∷ os) (offsets_of msgs)) where
    aside_Delivered :
        leb c.max_redeliveries l.redeliveries ≡ true
        → Delivered read c start next (set_aside c g o l) msgs
    aside_Delivered spent = record {
      order =
          slide_window-InOrder c.save_ok (set_lease g o (record l { acked = true })) next
            (replace-InOrder g next o l (record l { acked = true }) h.order at) small;
      short = h.short;
      held =
          All-Held c g (set_aside c g o l) o (offsets_of msgs)
            (set_aside-Keeps c g o next l h.order small at)
            (AllApart-tail o os (offsets_of msgs) sent_others).1 h.held;
      sent = h.sent;
      kept = λ k e.
          set_aside-settled c g o next l h.order small at k
          ∙ or_true (o == k) (settled g k) (h.kept k e);
      only = λ k e. elim (Bool-cases (o == k)) [
        | inl same ↦
            let z : o ≡ k = ground (arith, same) in
            inr (l, ap (λ n. lookup n start.leases) (sym z) ∙ was, due, spent)
        | inr other ↦ h.only k (
            or_right (o == k) (settled g k) other
              (sym (set_aside-settled c g o next l h.order small at k) ∙ e))
      ];
      saved = λ b.
          slide_window-IsSavedBehind c.save_ok (set_lease g o (record l { acked = true }))
            (omega
              (arith, h.order.counted, length-insert o (record l { acked = true }) g.leases l at))
            (h.saved b);
    }

    renewed_Delivered :
        (rec : Record)
        → read o ≡ ok rec
        → length msgs < c.max_count
        → Delivered read c start next
            (set_lease g o (renew_lease c l))
            (msgs ++ (message_of rec ∷ []))
    renewed_Delivered rec found room =
        let g' = set_lease g o (renew_lease c l) in
        let same = λ (k : ℕ). replace-settled g o l (renew_lease c l) k at refl in
        let offset : rec.offset ≡ o = read_offset o rec found in
        record {
          order = replace-InOrder g next o l (renew_lease c l) h.order at;
          short = omega (arith, room, length-append msgs (message_of rec ∷ []));
          held = subst (All (Held c g')) (sym (offsets_of-append msgs (message_of rec))) (
              All-snoc (Held c g') (offsets_of msgs) rec.offset
                (All-Held c g g' o (offsets_of msgs) (set_lease-Keeps g o (renew_lease c l))
                  (AllApart-tail o os (offsets_of msgs) sent_others).1 h.held)
                (subst (Held c g') (sym offset) (
                  renew_lease c l,
                  lookup-inserted o (renew_lease c l) g.leases,
                  unacked c.now l due,
                  refl,
                  refl,
                )));
          sent = All-snoc _ msgs (message_of rec) h.sent (rec, ap read offset ∙ found, refl);
          kept = λ k e. same k ∙ h.kept k e;
          only = λ k e. h.only k (sym (same k) ∙ e);
          saved = λ b. h.saved b;
        }

    again_step :
        (b : B)
        → length msgs < c.max_count
        → Stepped o g os (deliver_again read produce c b g msgs o (some l))
    again_step b room =
        let (found, e) = calm_read o in
        let (kept_apart, sent_apart) = AllApart-tail o os (offsets_of msgs) sent_others in
        if_cases (Stepped o g os) (leb c.max_redeliveries l.redeliveries) _ _
          (λ spent.
            let (b', gone) = divert_ends b found in
            (
              (b', set_aside c g o l, msgs),
              rw (e, gone) refl,
              aside_Delivered spent,
              set_aside-Keeps c g o next l h.order small at,
              kept_apart,
            ))
          (λ again. elim (Option-cases found) [
            | inl none_there ↦ (
              (b, g, msgs),
              rw (e, none_there) refl,
              h,
              λ k x other there waits. there,
              kept_apart,
            )
            | inr (rec, there) ↦
                let got : read o ≡ ok rec = attempt-some (read o) rec (e ∙ ap ok there) in
                let offset : rec.offset ≡ o = read_offset o rec got in
                (
                  (b, set_lease g o (renew_lease c l), msgs ++ (message_of rec ∷ [])),
                  rw (e, there) refl,
                  renewed_Delivered rec got room,
                  set_lease-Keeps g o (renew_lease c l),
                  subst (AllApart os) (sym (offsets_of-append msgs (message_of rec))) (
                      All-snoc (λ k. All (Apart k) os) (offsets_of msgs) rec.offset kept_apart
                        (subst (λ k. All (Apart k) os) (sym offset) others)),
                )
          ])

  -- The loop ends with all that it went through delivered, or set aside.
  pub deliver_expired-Delivered :
      (os : List ℕ) (b : B) (g : Group) (msgs : List Message)
      → Delivered read c start next g msgs
      → Distinct os
      → All (IsWaiting c start g) os
      → AllApart os (offsets_of msgs)
      → (s : B × Group × List Message) × (deliver_expired read produce c os b g msgs ≡ ok s)
        × Delivered read c start next s.1 s.2
  unfolding deliver_expired
  deliver_expired-Delivered [] b g msgs h d w a = ((b, g, msgs), refl, h)
  deliver_expired-Delivered (o ∷ os) b g msgs h (others, d) ((l, was, at, due), w) a =
      elim (Bool-cases (is_full c msgs)) [
        | inl full ↦ ((b, g, msgs), rw full refl, h)
        | inr room ↦
            let (s, stepped, h', keeps, a') =
              again_step g msgs o os l h was at due others a b
                (ground (arith, room, h.short, countable)) in
            let (s', rest, h'') =
              deliver_expired-Delivered os s.0 s.1 s.2 h' d
                (All-IsWaiting c start g s.1 o os keeps others w) a' in
            (s', rw (room, at, stepped) rest, h'')
      ]
