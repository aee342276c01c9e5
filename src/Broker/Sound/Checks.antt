-- ===== src/Broker/Sound/Checks.antt =====
-- pkg/broker/coordinator.go: checkExpiredLeases keeps the broker sound.
use tumbleweed.Base.{
  ℕ, suc, ◌+◌, ◌^◌, ◌≤◌, ◌<◌, ◌≡◌, refl, subst, inl, inr, Option, none, some, List, [], ◌∷◌, length,
  Bool, true, Bool-cases, Option-cases, leb, Result, ok, err, attempt, bind-ok, arith,
}
use tumbleweed.Wal.Encoding.{Record}
use tumbleweed.Wal.{read}
use tumbleweed.Broker.Names.{Name, find, put}
use tumbleweed.Broker.Leases.{Lease, lookup}
use tumbleweed.Broker.Group.{Group, PendingFetch, slide_window}
use tumbleweed.Broker.Group.Order.{replace-InOrder, slide_window-InOrder}
use tumbleweed.Broker.Group.Window.{slide_window-IsSavedBehind}
use tumbleweed.Broker.Fetch.{divert, set_lease, renew_lease}
use tumbleweed.Broker.Fetch.Returned.{divert-keeps}
use tumbleweed.Broker.Topics.{Topic, BrokerState, World}
use tumbleweed.Broker.Produce.{produce}
use tumbleweed.Broker.Requests.{dlq_name}
use tumbleweed.Broker.Expiry.{
  Checking, call_of, first_expired, put_group, redeliver, check_lease, check_found, check_loop,
  checked, check_expired_leases,
}
use tumbleweed.Broker.Sound.{
  SoundGroup, SoundTopic, SoundBroker, weaken-SoundTopic, weaken-SoundBroker, group-SoundTopic,
  topic-SoundBroker,
}
use tumbleweed.Broker.Sound.Appends.{Serves, weaken-Serves}
use tumbleweed.Broker.Sound.Fetches.{dlq-keeps}

-- A lease is changed in place, and the window moves behind it.
set_lease-SoundGroup :
    (g : Group) (o log_end : ℕ) (l x : Lease)
    → lookup o g.leases ≡ some l
    → SoundGroup log_end g
    → SoundGroup log_end (set_lease g o x)
set_lease-SoundGroup g o log_end l x at h = record {
  until = h.until;
  order = replace-InOrder g h.until o l x h.order at;
  within = h.within;
  saved = h.saved;
}

slide_window-SoundGroup :
    (save_ok : Bool) (g : Group) (log_end : ℕ)
    → log_end < 2 ^ 60
    → SoundGroup log_end g
    → SoundGroup log_end (slide_window save_ok g)
slide_window-SoundGroup save_ok g log_end small h = record {
  until = h.until;
  order = slide_window-InOrder save_ok g h.until h.order (omega (arith, h.within, small));
  within = h.within;
  saved =
      slide_window-IsSavedBehind save_ok g (omega (arith, h.order.counted, h.within, small))
        h.saved;
}

-- What the check works on stays sound.
abbrev SoundChecking : World → ℕ → Checking → Type 0
SoundChecking w n (b, t) = SoundBroker w.crc n b × SoundTopic w.crc n t

weaken_checking :
    (w : World) (m n : ℕ) (s : Checking) → n ≤ m → SoundChecking w m s → SoundChecking w n s
weaken_checking w m n (b, t) le (h, s) =
    (weaken-SoundBroker w.crc m n b le h, weaken-SoundTopic w.crc m n t le s)

ok-injective : {A : Type 0} {a b : A} → ok a ≡ ok b → a ≡ b
ok-injective e = cc

module _ (w : World) (topic : Name) where
  redeliver-Sound :
      (n : ℕ) (b : BrokerState) (t : Topic) (name : Name) (g : Group) (pf : PendingFetch) (o : ℕ)
      (l : Lease) (found : Option Record)
      → lookup o g.leases ≡ some l
      → SoundBroker w.crc n b
      → SoundTopic w.crc n t
      → SoundGroup t.wal.next_offset g
      → SoundChecking w n (redeliver w b t name g pf o l found)
  redeliver-Sound n b t name g pf o l none at h s k = (h, s)
  redeliver-Sound n b t name g pf o l (some rec) at h s k =
      let g' = set_lease g o (renew_lease (call_of w pf) l) in
      (
        h,
        group-SoundTopic w.crc n t name g' t.pending_fetches s
            (set_lease-SoundGroup g o t.wal.next_offset l (renew_lease (call_of w pf) l) at k),
      )

  check_lease-Sound :
      (n : ℕ) (b : BrokerState) (t : Topic) (name : Name) (g : Group) (pf : PendingFetch) (o : ℕ)
      (l : Option Lease) (s' : Checking)
      → lookup o g.leases ≡ l
      → check_lease w topic b t name g pf o l ≡ ok s'
      → Serves (suc n) w
      → SoundBroker w.crc (suc n) b
      → SoundTopic w.crc (suc n) t
      → SoundGroup t.wal.next_offset g
      → SoundChecking w n s'
  check_lease-Sound n b t name g pf o none s' at e serves h s k = absurd (cc)
  check_lease-Sound n b t name g pf o (some l) s' at e serves h s k =
      let (found, read_is, e1) = bind-ok (attempt (read w.crc t.wal o)) _ s' e in
      let s0 = weaken-SoundTopic w.crc (suc n) n t (omega arith) s in
      let produced =
        λ (b : BrokerState) (key value : List ℕ). produce w b (dlq_name topic) key value in
      elim (Bool-cases (leb w.config.max_redeliveries l.redeliveries)) [
        | inl spent ↦
            let (b', diverted_is, e2) =
              bind-ok (divert (read w.crc t.wal) produced (call_of w pf) b found) _ s'
                (rw spent at e1) in
            let (_, h') =
              divert-keeps (read w.crc t.wal) produced (call_of w pf)
                (λ k b. (k ≤ suc n) × SoundBroker w.crc k b)
                (λ k l b le (small, sound).
                  (omega (arith, le, small), weaken-SoundBroker w.crc k l b le sound))
                (dlq-keeps (suc n) w topic t serves s) n b b' o found read_is diverted_is
                (omega arith, h) in
            let acked = record l { acked = true } in
            let g' = slide_window w.save_ok (set_lease g o acked) in
            let k' =
              slide_window-SoundGroup w.save_ok (set_lease g o acked) t.wal.next_offset
                (omega (arith, s.space.offsets))
                (set_lease-SoundGroup g o t.wal.next_offset l acked at k) in
            let same : ◌≡◌ {A = Checking} (b', put_group t name g') s' = cc in
            subst (SoundChecking w n) same
              (h', group-SoundTopic w.crc n t name g' t.pending_fetches s0 k')
        | inr again ↦
            let e2 = rw again at e1 in
            let same : redeliver w b t name g pf o l found ≡ s' = cc in
            subst (SoundChecking w n) same (
              redeliver-Sound n b t name g pf o l found at
                (weaken-SoundBroker w.crc (suc n) n b (omega arith) h) s0 k)
      ]

  check_found-Sound :
      (n : ℕ) (b : BrokerState) (t : Topic) (name : Name) (pf : PendingFetch)
      (rest : List PendingFetch) (s' : Checking)
      → check_found w topic b t name pf rest (find name t.groups) ≡ ok s'
      → Serves (suc n) w
      → SoundChecking w (suc n) (b, t)
      → SoundChecking w n s'
  check_found-Sound n b t name pf rest s' e serves (h, s) =
      elim (Option-cases (find name t.groups)) [
        | inl absent ↦
            let same : ◌≡◌ {A = Checking} (b, t) s' = ok-injective (rw absent at e) in
            subst (SoundChecking w n) same kept
        | inr (g, there) ↦ elim (Option-cases (first_expired w.now g.leases none)) [
          | inl nothing ↦
              let same : ◌≡◌ {A = Checking} (b, t) s' = ok-injective (rw (there, nothing) at e) in
              subst (SoundChecking w n) same kept
          | inr (o, due) ↦
              let t' = record t { pending_fetches = put name rest t.pending_fetches } in
              check_lease-Sound n b t' name g pf o (lookup o g.leases) s' refl
                (rw (there, due) at e) serves h
                (record { entries = s.entries; logs = s.logs; space = s.space; groups = s.groups })
                (s.groups name g there)
        ]
      ]
    where
      kept : SoundChecking w n (b, t)
      kept = (
        weaken-SoundBroker w.crc (suc n) n b (omega arith) h,
        weaken-SoundTopic w.crc (suc n) n t (omega arith) s,
      )

  check_loop-Sound :
      (n : ℕ) (pending : List (Name × List PendingFetch)) (s s' : Checking)
      → check_loop w topic pending s ≡ ok s'
      → Serves (length pending + n) w
      → SoundChecking w (length pending + n) s
      → SoundChecking w n s'
  unfolding check_loop
  check_loop-Sound n [] s s' e serves h =
      subst (SoundChecking w n) (ok-injective e) (weaken_checking w (0 + n) n s (omega arith) h)
  check_loop-Sound n ((name, []) ∷ more) s s' e serves h =
      let m = length more + n in
      check_loop-Sound n more s s' e
        (weaken-Serves (length ((name, []) ∷ more) + n) m w (omega arith) serves)
        (weaken_checking w (length ((name, []) ∷ more) + n) m s (omega arith) h)
  check_loop-Sound n ((name, pf ∷ rest) ∷ more) (b, t) s' e serves h =
      let l = length ((name, pf ∷ rest) ∷ more) + n in
      let m = length more + n in
      let (p, first, others) =
        bind-ok (check_found w topic b t name pf rest (find name t.groups)) _ s' e in
      check_loop-Sound n more p s' others (weaken-Serves l m w (omega arith) serves) (
        check_found-Sound m b t name pf rest p first
          (weaken-Serves l (suc m) w (omega arith) serves)
          (weaken_checking w l (suc m) (b, t) (omega arith) h))

  -- The check of a topic keeps the broker sound, with a message for each group with waiting fetches.
  pub check_expired_leases-SoundBroker :
      (n : ℕ) (b : BrokerState) (t : Topic)
      → Serves (length t.pending_fetches + n) w
      → SoundBroker w.crc (length t.pending_fetches + n) b
      → SoundTopic w.crc (length t.pending_fetches + n) t
      → SoundBroker w.crc n (check_expired_leases w b topic t).0
  unfolding check_expired_leases
  check_expired_leases-SoundBroker n b t serves h s =
      ended (check_loop w topic t.pending_fetches (b, t)) refl
    where
      ended :
          (r : Result Checking)
          → check_loop w topic t.pending_fetches (b, t) ≡ r
          → SoundBroker w.crc n (checked b topic r).0
      ended (err x) e = weaken-SoundBroker w.crc (length t.pending_fetches + n) n b (omega arith) h
      ended (ok (b', t')) e =
          let (h', s') = check_loop-Sound n t.pending_fetches (b, t) (b', t') e serves (h, s) in
          topic-SoundBroker w.crc n b' topic t' h' s'
