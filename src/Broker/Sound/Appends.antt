-- ===== src/Broker/Sound/Appends.antt =====
-- pkg/broker/coordinator.go: CreateTopic and Produce keep the broker sound.
use tumbleweed.Base.{
  ℕ, suc, ◌+◌, ◌^◌, ◌≤◌, ◌<◌, ◌≡◌, refl, sym, subst, inl, inr, Option, none, some, List, [], ◌∷◌,
  ◌++◌, length, length-append, true, Bool-cases, Option-cases, Result, ok, err, attempt, arith,
}
use tumbleweed.Protocol.FetchResponse.{Message}
use tumbleweed.Wal.Encoding.{Record}
use tumbleweed.Wal.Encoding.Layout.{Entry, EntryFits}
use tumbleweed.Wal.{Wal, append, read}
use tumbleweed.Wal.Log.{Logs}
use tumbleweed.Wal.Log.Append.{Appended, Room, append-Appended}
use tumbleweed.Wal.Log.Grown.{Grown, append-Grown}
use tumbleweed.Broker.Names.{Name, find, put}
use tumbleweed.Broker.Group.{PendingFetch}
use tumbleweed.Broker.Topics.{
  Topic, BrokerState, World, open_topic, add_topic, create_topic, get_or_create_group,
}
use tumbleweed.Broker.Produce.{
  Sending, dispatch_loop, dispatch_message, dispatch_read, dispatch_appended, produced, produce_on,
  produce,
}
use tumbleweed.Broker.Produce.Laws.{entry_of}
use tumbleweed.Broker.Sound.{
  later-SoundGroup, SoundTopic, SoundBroker, weaken-SoundTopic, weaken-SoundBroker,
  topic-SoundBroker,
}

-- What a call of the broker relies on: a checksum of 32 bits, a clock of 64 bits, and that a topic whose
-- files are opened is sound, with `n` messages to append.
pub record Serves (n : ℕ) (w : World) : Type 0 where
  pub crc_fits : (bytes : List ℕ) → w.crc bytes < 2 ^ 32
  pub clock : w.timestamp < 2 ^ 64
  pub opens : (name : Name) (t : Topic) → open_topic w name ≡ ok t → SoundTopic w.crc n t

pub weaken-Serves : (m n : ℕ) (w : World) → n ≤ m → Serves m w → Serves n w
weaken-Serves m n w le h = record {
  crc_fits = h.crc_fits;
  clock = h.clock;
  opens = λ name t e. weaken-SoundTopic w.crc m n t le (h.opens name t e);
}

-- The log of a topic with one message more, or with the same.
appended_topic :
    (crc : List ℕ → ℕ) (n : ℕ) (t : Topic) (wal : Wal) (es : List Entry)
    → SoundTopic crc (suc n) t
    → Logs crc wal 0 es
    → Grown t.wal (2 ^ 62 + 2 ^ 34) wal
    → t.wal.next_offset ≤ wal.next_offset
    → wal.next_offset ≤ t.wal.next_offset + 1
    → SoundTopic crc n (record t { wal = wal })
appended_topic crc n t wal es h logs grown low high = record {
  entries = es;
  logs = logs;
  space = record {
    offsets = omega (arith, h.space.offsets, high);
    some_limit = omega (arith, h.space.some_limit, grown.same_max);
    limit = omega (arith, h.space.limit, grown.same_max);
    active = grown.size;
  };
  groups = λ k g at. later-SoundGroup t.wal.next_offset wal.next_offset g low (h.groups k g at);
}

module _ (n : ℕ) (w : World) (serves : Serves (suc n) w) where
  append-closed :
      (wal : Wal) (key value : List ℕ)
      → wal.closed ≡ true
      → (append w.crc w.disk w.timestamp wal key value).0 ≡ wal
  unfolding append
  append-closed wal key value e = rw e refl

  after_append-SoundTopic :
      (t : Topic) (e : Entry) (p : Wal × Result ℕ)
      → (h : SoundTopic w.crc (suc n) t) → Appended w.crc 0 t.wal.next_offset h.entries e p
      → Grown t.wal (2 ^ 62 + 2 ^ 34) p.0
      → SoundTopic w.crc n (record t { wal = p.0 })
  after_append-SoundTopic t e (wal, r) h (inl (_, logs)) grown =
      let size = length-append h.entries (e ∷ []) in
      appended_topic w.crc n t wal (h.entries ++ (e ∷ [])) h logs grown
        (omega (arith, logs.next_is, h.logs.next_is, size))
        (omega (arith, logs.next_is, h.logs.next_is, size))
  after_append-SoundTopic t e (wal, r) h (inr (_, inl logs)) grown =
      appended_topic w.crc n t wal h.entries h logs grown
        (omega (arith, logs.next_is, h.logs.next_is)) (omega (arith, logs.next_is, h.logs.next_is))
  after_append-SoundTopic t e (wal, r) h (inr (_, inr logs)) grown =
      let size = length-append h.entries (e ∷ []) in
      appended_topic w.crc n t wal (h.entries ++ (e ∷ [])) h logs grown
        (omega (arith, logs.next_is, h.logs.next_is, size))
        (omega (arith, logs.next_is, h.logs.next_is, size))

  append-SoundTopic :
      (t : Topic) (key value : List ℕ)
      → length key < 2 ^ 32
      → length value < 2 ^ 32
      → SoundTopic w.crc (suc n) t
      → SoundTopic w.crc n (record t { wal = (append w.crc w.disk w.timestamp t.wal key value).0 })
  append-SoundTopic t key value short_key short_value h = elim (Bool-cases t.wal.closed) [
    | inl closed ↦
        subst (λ wal. SoundTopic w.crc n (record t { wal = wal }))
          (sym (append-closed t.wal key value closed))
          (weaken-SoundTopic w.crc (suc n) n t (omega arith) h)
    | inr opened ↦
        let e = entry_of w key value in
        let fits : EntryFits e = record {
          timestamp_fits = serves.clock;
          key_fits = short_key;
          value_fits = short_value;
        } in
        let room : Room w.crc t.wal 0 h.entries e = record {
          entry_fits = fits;
          offset_free = omega (arith, h.logs.next_is, h.space.offsets);
          file_free = omega (arith, h.space.active, short_key, short_value);
        } in
        after_append-SoundTopic t e (append w.crc w.disk w.timestamp t.wal key value) h
          (append-Appended w.crc w.disk t.wal 0 h.entries e h.logs opened h.space.some_limit room)
          (append-Grown w.crc w.disk t.wal 0 (2 ^ 62 + 2 ^ 34) h.entries e h.logs h.space.some_limit
            (omega (arith, h.logs.next_is, h.space.offsets)) h.space.active
            (omega (arith, h.space.limit, short_key, short_value)))
  ]

  -- A dispatch that ends has changed nothing.
  dispatch_loop-ends :
      (msg : Message) (pending : List (Name × List PendingFetch)) (s s' : Sending)
      → dispatch_loop w msg pending s ≡ ok s'
      → s ≡ s'
  unfolding dispatch_loop get_or_create_group
  dispatch_loop-ends msg [] s s' e = cc
  dispatch_loop-ends msg ((name, []) ∷ more) s s' e = dispatch_loop-ends msg more s s' e
  dispatch_loop-ends msg ((name, pf ∷ rest) ∷ more) (t, sent) s' e = absurd (cc)

  -- What CreateTopic leaves, and the topic that it returns.
  abbrev pub Created : ℕ → BrokerState × Result Topic → Type 0
  Created m (b, r) = SoundBroker w.crc m b × ((t : Topic) → r ≡ ok t → SoundTopic w.crc m t)

  module _ (name : Name) (key value : List ℕ) where
    produced-SoundBroker :
        (b : BrokerState) (t : Topic) (offset : ℕ) (msg : Message) (r : Result Sending)
        → dispatch_message w t b.sent msg ≡ r
        → SoundBroker w.crc n b
        → SoundTopic w.crc n t
        → SoundBroker w.crc n (produced b name offset r).0
    unfolding dispatch_message
    produced-SoundBroker b t offset msg (err e) at h s = h
    produced-SoundBroker b t offset msg (ok (t', sent)) at h s =
        let same = dispatch_loop-ends msg t.pending_fetches (t, b.sent) (t', sent) at in
        topic-SoundBroker w.crc n b name t' h
          (subst (λ (x : Sending). SoundTopic w.crc n x.0) same s)

    dispatch_read-SoundBroker :
        (b : BrokerState) (t : Topic) (offset : ℕ) (r : Result (Option Record))
        → SoundBroker w.crc n b
        → SoundTopic w.crc n t
        → SoundBroker w.crc n (dispatch_read w b name t offset r).0
    dispatch_read-SoundBroker b t offset (err e) h s = h
    dispatch_read-SoundBroker b t offset (ok none) h s = h
    dispatch_read-SoundBroker b t offset (ok (some rec)) h s =
        produced-SoundBroker b t offset _ _ refl h s

    dispatch_appended-SoundBroker :
        (b : BrokerState) (t : Topic) (p : Wal × Result ℕ)
        → SoundBroker w.crc n b
        → SoundTopic w.crc n (record t { wal = p.0 })
        → SoundBroker w.crc n (dispatch_appended w b name t p).0
    dispatch_appended-SoundBroker b t (wal, err e) h s =
        topic-SoundBroker w.crc n b name (record t { wal = wal }) h s
    dispatch_appended-SoundBroker b t (wal, ok offset) h s =
        dispatch_read-SoundBroker (record b { topics = put name (record t { wal = wal }) b.topics })
          (record t { wal = wal }) offset (attempt (read w.crc wal offset))
          (topic-SoundBroker w.crc n b name (record t { wal = wal }) h s) s

    produce_on-SoundBroker :
        (p : BrokerState × Result Topic)
        → length key < 2 ^ 32
        → length value < 2 ^ 32
        → Created (suc n) p
        → SoundBroker w.crc n (produce_on w name key value p).0
    produce_on-SoundBroker (b, err e) short_key short_value (h, k) =
        weaken-SoundBroker w.crc (suc n) n b (omega arith) h
    produce_on-SoundBroker (b, ok t) short_key short_value (h, k) =
        dispatch_appended-SoundBroker b t (append w.crc w.disk w.timestamp t.wal key value)
          (weaken-SoundBroker w.crc (suc n) n b (omega arith) h)
          (append-SoundTopic t key value short_key short_value (k t refl))

module _ (m : ℕ) (w : World) (serves : Serves m w) (name : Name) where
  add_topic-Created :
      (b : BrokerState) (r : Result Topic)
      → SoundBroker w.crc m b
      → ((t : Topic) → r ≡ ok t → SoundTopic w.crc m t)
      → SoundBroker w.crc m (add_topic b name r).0
        × ((t : Topic) → (add_topic b name r).1 ≡ ok t → SoundTopic w.crc m t)
  add_topic-Created b (err e) h k = (h, λ t at. absurd (cc))
  add_topic-Created b (ok t) h k = (topic-SoundBroker w.crc m b name t h (k t refl), k)

  pub create_topic-Created :
      (b : BrokerState)
      → SoundBroker w.crc m b
      → SoundBroker w.crc m (create_topic w b name).0
        × ((t : Topic) → (create_topic w b name).1 ≡ ok t → SoundTopic w.crc m t)
  unfolding create_topic
  create_topic-Created b h = elim (Option-cases (find name b.topics)) [
    | inl absent ↦
        rw (absent, create_topic) (add_topic-Created b (open_topic w name) h (serves.opens name))
    | inr (t, there) ↦
        rw (there, create_topic)
          (h, λ t' at. let same : t ≡ t' = cc in subst (SoundTopic w.crc m) same (h name t there))
  ]

-- Produce uses up one of the messages that may be appended.
pub produce-SoundBroker :
    (n : ℕ) (w : World) (name : Name) (key value : List ℕ) (b : BrokerState)
    → Serves (suc n) w
    → length key < 2 ^ 32
    → length value < 2 ^ 32
    → SoundBroker w.crc (suc n) b
    → SoundBroker w.crc n (produce w b name key value).0
unfolding produce
produce-SoundBroker n w name key value b serves short_key short_value h =
    let (h', k) = create_topic-Created (suc n) w serves name b h in
    produce_on-SoundBroker n w serves name key value (create_topic w b name) short_key short_value
      (h', k)
