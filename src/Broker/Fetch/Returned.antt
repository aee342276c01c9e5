-- ===== src/Broker/Fetch/Returned.antt =====
-- pkg/broker/coordinator.go, fetchAvailable, where a Produce on the dead letter topic may wait for ever:
-- what holds if the fetch returns.
use tumbleweed.Base.{
  ℕ, suc, ◌+◌, ◌-◌, ◌^◌, ◌≤◌, ◌<◌, ◌≡◌, refl, ap, subst, inl, inr, Option, none, some, List, [],
  ◌∷◌, ◌++◌, length, true, Bool-cases, leb, Result, ok, err, io, panics, blocked, attempt,
  attempt-some, bind-ok, arith,
}
use tumbleweed.Protocol.FetchResponse.{Message}
use tumbleweed.Wal.Encoding.{Record}
use tumbleweed.Broker.Leases.{Lease, lookup}
use tumbleweed.Broker.Group.{Group, slide_window}
use tumbleweed.Broker.Group.Order.{InOrder}
use tumbleweed.Broker.Sort.{sort_offsets}
use tumbleweed.Broker.Fetch.{
  FetchCall, is_full, set_lease, renew_lease, message_of, expired_offsets, next_expected, divert,
  diverted, deliver_again, deliver_expired, deliver_new, fetch_available,
}
use tumbleweed.Broker.Fetch.Delivered.{Delivered}
use tumbleweed.Broker.Fetch.Again.{IsCalm}
use tumbleweed.Broker.Fetch.Fetched.{fetch_available-Delivered}

-- the same call, with an error in place of a panic or an endless wait
abbrev calmed : {B : Type 0} → B × Result ℕ → B × Result ℕ
calmed (b, ok n) = (b, ok n)
calmed (b, err panics) = (b, err io)
calmed (b, err blocked) = (b, err io)
calmed (b, err e) = (b, err e)

calmed-IsCalm : {B : Type 0} (p : B × Result ℕ) → IsCalm (calmed p).1
calmed-IsCalm (b, ok n) = (some n, refl)
calmed-IsCalm (b, err panics) = (none, refl)
calmed-IsCalm (b, err blocked) = (none, refl)
calmed-IsCalm (b, err _) = (none, refl)

module _ {B : Type 0} (read : ℕ → Result Record) (produce : B → List ℕ → List ℕ → B × Result ℕ)
    (c : FetchCall) where
  abbrev calm : B → List ℕ → List ℕ → B × Result ℕ
  calm b key value = calmed (produce b key value)

  diverted-calmed :
      (p : B × Result ℕ) (b : B)
      → diverted read produce c p ≡ ok b
      → diverted read calm c (calmed p) ≡ ok b
  diverted-calmed (b', ok n) b e = e
  diverted-calmed (b', err panics) b e = absurd (cc)
  diverted-calmed (b', err blocked) b e = absurd (cc)
  diverted-calmed (b', err _) b e = e

  divert-calm :
      (b b' : B) (found : Option Record)
      → divert read produce c b found ≡ ok b'
      → divert read calm c b found ≡ ok b'
  divert-calm b b' none e = e
  divert-calm b b' (some rec) e = diverted-calmed (produce b rec.key rec.value) b' e

  deliver_again-calm :
      (b : B) (g : Group) (msgs : List Message) (o : ℕ) (l : Option Lease)
      (s : B × Group × List Message)
      → deliver_again read produce c b g msgs o l ≡ ok s
      → deliver_again read calm c b g msgs o l ≡ ok s
  deliver_again-calm b g msgs o none s e = absurd (cc)
  deliver_again-calm b g msgs o (some l) s e =
      elim (Bool-cases (leb c.max_redeliveries l.redeliveries)) [
        | inl spent ↦
            let (found, read_is, e1) = bind-ok (attempt (read o)) _ s (rw spent at e) in
            let (b', diverted_is, e2) = bind-ok (divert read produce c b found) _ s e1 in
            rw (spent, read_is, divert-calm b b' found diverted_is) e2
        | inr again ↦ rw again (rw again at e)
      ]

  deliver_expired-calm :
      (os : List ℕ) (b : B) (g : Group) (msgs : List Message) (s : B × Group × List Message)
      → deliver_expired read produce c os b g msgs ≡ ok s
      → deliver_expired read calm c os b g msgs ≡ ok s
  unfolding deliver_expired
  deliver_expired-calm [] b g msgs s e = e
  deliver_expired-calm (o ∷ os) b g msgs s e = elim (Bool-cases (is_full c msgs)) [
    | inl full ↦ rw full (rw full at e)
    | inr more ↦
        let (p, first, rest) =
          bind-ok (deliver_again read produce c b g msgs o (lookup o g.leases)) _ s
            (rw more at e) in
        rw (more, deliver_again-calm b g msgs o (lookup o g.leases) p first)
          (deliver_expired-calm os p.0 p.1 p.2 s rest)
  ]

  module _ (calm_read : (o : ℕ) → IsCalm (read o))
      (read_offset : (o : ℕ) (rec : Record) → read o ≡ ok rec → rec.offset ≡ o) where
    -- A fetch that returns has delivered what one delivers that cannot wait for ever.
    pub fetch_available-returned :
        (g : Group) (next wal_next : ℕ) (b : B) (s : B × Group × List Message)
        → InOrder g next
        → next ≤ wal_next
        → wal_next < 2 ^ 64
        → c.max_count < 2 ^ 32
        → fetch_available read produce c wal_next b g ≡ ok s
        → (next' : ℕ) × Delivered read c g next' s.1 s.2 × (next' ≤ wal_next)
    unfolding fetch_available
    fetch_available-returned g next wal_next b s h low wide countable e =
        let os = sort_offsets (expired_offsets c.now g.leases) in
        let (p, expired, rest) = bind-ok (deliver_expired read produce c os b g []) _ s e in
        let calm_too : fetch_available read calm c wal_next b g ≡ ok s =
          rw (fetch_available, deliver_expired-calm os b g [] p expired) rest in
        let (s', next', again, delivered, _, high, _) =
          fetch_available-Delivered read calm c calm_read
            (λ b key value. calmed-IsCalm (produce b key value)) read_offset g next wal_next b h low
            wide countable in
        let same : s' ≡ s = cc in
        (
          next',
          subst (λ (x : B × Group × List Message). Delivered read c g next' x.1 x.2) same delivered,
          high,
        )

  -- A property of the broker, with the number of messages that may still be appended, that a Produce
  -- of a record of the log keeps.
  module _ (Inv : ℕ → B → Type 0) (weaken : (m n : ℕ) (b : B) → n ≤ m → Inv m b → Inv n b)
      (kept : (n : ℕ) (b : B) (o : ℕ) (rec : Record)
        → read o ≡ ok rec
        → Inv (suc n) b
        → Inv n (produce b rec.key rec.value).0) where
    diverted-is : (p : B × Result ℕ) (b : B) → diverted read produce c p ≡ ok b → p.0 ≡ b
    diverted-is (b', ok n) b e = cc
    diverted-is (b', err panics) b e = absurd (cc)
    diverted-is (b', err blocked) b e = absurd (cc)
    diverted-is (b', err _) b e = cc

    first_is : (p s : B × Group × List Message) → ok p ≡ ok s → p.0 ≡ s.0
    first_is p s e = let same : p ≡ s = cc in ap (λ (x : B × Group × List Message). x.0) same

    renewed_is :
        (b : B) (g : Group) (msgs : List Message) (o : ℕ) (l : Lease) (found : Option Record)
        (s : B × Group × List Message)
        → ok (elim found [
          | none ↦ (b, g, msgs)
          | some rec ↦ (b, set_lease g o (renew_lease c l), msgs ++ (message_of rec ∷ []))
        ])
          ≡ ok s
        → b ≡ s.0
    renewed_is b g msgs o l none s e = first_is (b, g, msgs) s e
    renewed_is b g msgs o l (some rec) s e =
        first_is (b, set_lease g o (renew_lease c l), msgs ++ (message_of rec ∷ [])) s e

    pub divert-keeps :
        (n : ℕ) (b b' : B) (o : ℕ) (found : Option Record)
        → attempt (read o) ≡ ok found
        → divert read produce c b found ≡ ok b'
        → Inv (suc n) b
        → Inv n b'
    divert-keeps n b b' o none at e h =
        let same : b ≡ b' = cc in subst (Inv n) same (weaken (suc n) n b (omega arith) h)
    divert-keeps n b b' o (some rec) at e h =
        subst (Inv n) (diverted-is (produce b rec.key rec.value) b' e)
          (kept n b o rec (attempt-some (read o) rec at) h)

    deliver_again-keeps :
        (n : ℕ) (b : B) (g : Group) (msgs : List Message) (o : ℕ) (l : Option Lease)
        (s : B × Group × List Message)
        → deliver_again read produce c b g msgs o l ≡ ok s
        → Inv (suc n) b
        → Inv n s.0
    deliver_again-keeps n b g msgs o none s e h = absurd (cc)
    deliver_again-keeps n b g msgs o (some l) s e h =
        elim (Bool-cases (leb c.max_redeliveries l.redeliveries)) [
          | inl spent ↦
              let (found, read_is, e1) = bind-ok (attempt (read o)) _ s (rw spent at e) in
              let (b', diverted_is, e2) = bind-ok (divert read produce c b found) _ s e1 in
              let same : b' ≡ s.0 =
                first_is
                  (b', slide_window c.save_ok (set_lease g o (record l { acked = true })), msgs) s
                  e2 in
              subst (Inv n) same (divert-keeps n b b' o found read_is diverted_is h)
          | inr again ↦
              let (found, read_is, e1) = bind-ok (attempt (read o)) _ s (rw again at e) in
              let same : b ≡ s.0 = renewed_is b g msgs o l found s e1 in
              subst (Inv n) same (weaken (suc n) n b (omega arith) h)
        ]

    deliver_expired-keeps :
        (n : ℕ) (os : List ℕ) (b : B) (g : Group) (msgs : List Message)
        (s : B × Group × List Message)
        → deliver_expired read produce c os b g msgs ≡ ok s
        → Inv (length os + n) b
        → Inv n s.0
    unfolding deliver_expired
    deliver_expired-keeps n [] b g msgs s e h =
        subst (Inv n) (first_is (b, g, msgs) s e) (weaken (0 + n) n b (omega arith) h)
    deliver_expired-keeps n (o ∷ os) b g msgs s e h = elim (Bool-cases (is_full c msgs)) [
      | inl full ↦
          subst (Inv n) (first_is (b, g, msgs) s (rw full at e))
            (weaken (length (o ∷ os) + n) n b (omega arith) h)
      | inr more ↦
          let (p, first, rest) =
            bind-ok (deliver_again read produce c b g msgs o (lookup o g.leases)) _ s
              (rw more at e) in
          deliver_expired-keeps n os p.0 p.1 p.2 s rest (
            deliver_again-keeps (length os + n) b g msgs o (lookup o g.leases) p first
              (weaken (length (o ∷ os) + n) (suc (length os + n)) b (omega arith) h))
    ]

    -- A fetch that returns keeps it, with an append for each offset whose lease is expired.
    pub fetch_available-keeps :
        (n : ℕ) (g : Group) (wal_next : ℕ) (b : B) (s : B × Group × List Message)
        → fetch_available read produce c wal_next b g ≡ ok s
        → Inv (length (sort_offsets (expired_offsets c.now g.leases)) + n) b
        → Inv n s.0
    unfolding fetch_available
    fetch_available-keeps n g wal_next b s e h =
        let os = sort_offsets (expired_offsets c.now g.leases) in
        let (p, expired, rest) = bind-ok (deliver_expired read produce c os b g []) _ s e in
        let next = next_expected p.1.committed_offset p.1.leases in
        let (q, _, last) =
          bind-ok (deliver_new read c (wal_next - next) wal_next next p.1 p.2) _ s rest in
        subst (Inv n) (first_is (p.0, q.0, q.1) s last)
          (deliver_expired-keeps n os b g [] p expired h)
