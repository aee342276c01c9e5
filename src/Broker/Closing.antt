-- ===== src/Broker/Closing.antt =====
-- pkg/broker/coordinator.go: Close, and the loop of leaseExpiryLoop, which it ends. `succeeds` says which
-- system calls of the logs' Close do.
mod Tests
use tumbleweed.Base.{
  ℕ, ◌≡◌, refl, sym, ap, subst, ◌∙◌, inl, inr, Option, none, some, List, [], ◌∷◌, Bool, true, false,
  Bool-cases, if_cases, if◌then◌else◌, Result, ok, err, wal_closed,
}
use tumbleweed.Wal.{Wal, append}
use tumbleweed.Wal.SegmentFile.{Segment}
use tumbleweed.Wal.Encoding.Layout.{Entry}
use tumbleweed.Wal.Log.{Logs}
use tumbleweed.Wal.Closing.{ClosingCall, close, close-Refuses}
use tumbleweed.Broker.Names.{
  Name, same_name, find, put, eq_of_same_name, find-put_self, find-put_other,
}
use tumbleweed.Broker.Topics.{Topic, BrokerState, World, create_topic}
use tumbleweed.Broker.Produce.{produce, produce_on, dispatch_appended}
use tumbleweed.Broker.Expiry.{check_topics, lease_tick}

-- The broker with its flag.
pub record Running : Type 0 where
  pub broker : BrokerState
  pub closed : Bool

-- One tick of leaseExpiryLoop, which ends the loop once the broker is closed.
unfoldable pub expiry_tick : (Name → World) → Running → Option Running
expiry_tick worlds c =
    if c.closed then none else some (record c { broker = lease_tick worlds c.broker })

-- `if err := …; err != nil { lastErr = err }`
abbrev pub last_error : Result (Unit {0}) → Result (Unit {0}) → Result (Unit {0})
last_error last (ok u) = last
last_error last (err e) = err e

-- What Close does to a log, whichever calls fail.
close-Logs :
    (succeeds : ClosingCall → Segment → Bool) (crc : List ℕ → ℕ) (w : Wal) (start : ℕ)
    (es : List Entry)
    → Logs crc w start es
    → Logs crc (close succeeds w).0 start es
unfolding close
close-Logs succeeds crc w start es h =
    if_cases (λ (p : Wal × Result (Unit {0})). Logs crc p.0 start es) w.closed _ _ (λ _. h)
      (λ _. record { chain = h.chain; next_is = h.next_is })

module _ (succeeds : Name → ClosingCall → Segment → Bool) where
  abbrev pub closed_topic : Name → Topic → Topic
  closed_topic name t = record t { wal = (close (succeeds name) t.wal).0 }

  -- the loop over the topics
  unfoldable pub close_topics :
      List (Name × Topic) → Result (Unit {0}) → List (Name × Topic) × Result (Unit {0})
  close_topics [] last = ([], last)
  close_topics ((name, t) ∷ topics) last =
      let (rest, r) = close_topics topics (last_error last (close (succeeds name) t.wal).1) in
      ((name, closed_topic name t) ∷ rest, r)

  unfoldable pub close_broker : Running → Running × Result (Unit {0})
  close_broker c =
      let (topics, r) = close_topics c.broker.topics (ok tt) in
      if c.closed
      then (c, ok tt)
      else (record { broker = record c.broker { topics = topics }; closed = true }, r)

  find-close_topics :
      (k : Name) (topics : List (Name × Topic)) (last : Result (Unit {0})) (t : Topic)
      → find k topics ≡ some t
      → find k (close_topics topics last).0 ≡ some (closed_topic k t)
  unfolding find close_topics
  find-close_topics k [] last t there = absurd (cc)
  find-close_topics k ((name, x) ∷ topics) last t there = elim (Bool-cases (same_name name k)) [
    | inl e ↦
        let first : some x ≡ some t = (rw (e, find) at there) in
        let same : x ≡ t = cc in
        rw (e, find)
          (ap (λ n. some (closed_topic n x)) (eq_of_same_name name k e)
            ∙ ap (λ y. some (closed_topic k y)) same)
    | inr e ↦
        rw (e, find)
          (find-close_topics k topics (last_error last (close (succeeds name) x.wal).1) t
            (rw (e, find) at there))
  ]

  produce-closed :
      (b : BrokerState) (w : World) (name : Name) (key value : List ℕ) (t : Topic)
      → find name b.topics ≡ some (closed_topic name t)
      → produce w b name key value
        ≡ (record b { topics = put name (closed_topic name t) b.topics }, err wal_closed)
  unfolding produce create_topic
  produce-closed b w name key value t there =
      let refused =
        (close-Refuses (succeeds name) w.crc t.wal).no_append w.disk w.timestamp key value in
      let made : ◌≡◌ {A = BrokerState × Result Topic} (create_topic w b name)
          (b, ok (closed_topic name t)) =
        rw (there, create_topic) refl in
      ap (produce_on w name key value) made
      ∙ ap (dispatch_appended w b name (closed_topic name t)) refused

  find-put_there :
      (k : Name) (t : Topic) (topics : List (Name × Topic)) (other : Name)
      → find k topics ≡ some t
      → find other (put k t topics) ≡ find other topics
  find-put_there k t topics other there = elim (Bool-cases (same_name k other)) [
    | inl e ↦
        ap (λ n. find n (put k t topics)) (sym (eq_of_same_name k other e))
        ∙ find-put_self k t topics
        ∙ sym there
        ∙ ap (λ n. find n topics) (eq_of_same_name k other e)
    | inr e ↦ find-put_other k other t topics e
  ]

  -- What holds of a closed broker that had these topics.
  pub record Stopped (old : BrokerState) (c : Running) : Type 0 where
    pub no_produce :
        (name : Name) (t : Topic) (w : World) (key value : List ℕ)
        → find name old.topics ≡ some t
        → (produce w c.broker name key value).1 ≡ err wal_closed
    pub no_change :
        (name : Name) (t : Topic) (w : World) (key value : List ℕ) (other : Name)
        → find name old.topics ≡ some t
        → find other (produce w c.broker name key value).0.topics ≡ find other c.broker.topics
    pub same_logs :
        (name : Name) (t : Topic) (crc : List ℕ → ℕ) (start : ℕ) (es : List Entry)
        → find name old.topics ≡ some t
        → Logs crc t.wal start es
        → (t' : Topic) × (find name c.broker.topics ≡ some t') × Logs crc t'.wal start es
    pub no_close : close_broker c ≡ (c, ok tt)
    pub no_tick : (worlds : Name → World) → expiry_tick worlds c ≡ none

  -- On a broker that is not closed, whichever system calls of Close fail: afterwards Produce on each of
  -- its topics is refused and changes no topic, each topic's log still holds its messages, a further
  -- Close does nothing, and the next tick ends the loop that checks the leases.
  pub close_broker-Stopped : (c : Running) → c.closed ≡ false → Stopped c.broker (close_broker c).0
  unfolding close_broker expiry_tick
  close_broker-Stopped c e =
      let topics = (close_topics c.broker.topics (ok tt)).0 in
      let b = record c.broker { topics = topics } in
      let found = λ (name : Name) (t : Topic) (there : find name c.broker.topics ≡ some t).
        find-close_topics name c.broker.topics (ok tt) t there in
      rw e (record {
        no_produce = λ name t w key value there.
            ap (λ (p : BrokerState × Result ℕ). p.1)
              (produce-closed b w name key value t (found name t there));
        no_change = λ name t w key value other there.
            ap (λ (p : BrokerState × Result ℕ). find other p.0.topics)
              (produce-closed b w name key value t (found name t there))
            ∙ find-put_there name (closed_topic name t) topics other (found name t there);
        same_logs = λ name t crc start es there h. (
          closed_topic name t,
          found name t there,
          close-Logs (succeeds name) crc t.wal start es h,
        );
        no_close = refl;
        no_tick = λ worlds. refl;
      })
