-- ===== src/Broker/Sound/Fetches.antt =====
-- pkg/broker/coordinator.go: Fetch keeps the broker sound.
use tumbleweed.Base.{
  ℕ, suc, ◌+◌, ◌^◌, ◌≤◌, ◌<◌, ◌≡◌, refl, inl, inr, List, [], ◌∷◌, ◌++◌, length, Option-cases,
  if_cases, ◌==◌, Result, ok, err, arith,
}
use tumbleweed.Protocol.FetchRequest.{FetchRequest}
use tumbleweed.Protocol.FetchResponse.{Message}
use tumbleweed.Wal.Encoding.{Record}
use tumbleweed.Wal.{read}
use tumbleweed.Broker.Names.{Name, find, put}
use tumbleweed.Broker.Group.{Group, PendingFetch}
use tumbleweed.Broker.Sort.{sort_offsets}
use tumbleweed.Broker.Fetch.{expired_offsets, fetch_available}
use tumbleweed.Broker.Fetch.OnLog.{read-IsCalm, read_offset, read-Short}
use tumbleweed.Broker.Fetch.Returned.{fetch_available-returned, fetch_available-keeps}
use tumbleweed.Broker.Topics.{Topic, BrokerState, World, create_topic, found_group}
use tumbleweed.Broker.Produce.{produce}
use tumbleweed.Broker.Requests.{
  dlq_name, pending_of, pending_fetch, fetch_call, Fetched, answer_or_wait, fetched, fetch_topic,
  fetch, remove_fetch, fetch_timeout,
}
use tumbleweed.Broker.Sound.{
  SoundGroup, SoundTopic, SoundBroker, weaken-SoundTopic, weaken-SoundBroker, group-SoundTopic,
  topic-SoundBroker,
}
use tumbleweed.Broker.Sound.Answers.{found_group-Sound}
use tumbleweed.Broker.Sound.Appends.{
  Serves, weaken-Serves, create_topic-Created, produce-SoundBroker,
}

-- How many messages a Fetch may append to the dead letter topic: one for each expired lease.
abbrev pub expired_count : World → Group → ℕ
expired_count w g = length (sort_offsets (expired_offsets w.now g.leases))

abbrev pub fetch_cost : World → FetchRequest → Result Topic → ℕ
fetch_cost w req (err e) = 0
fetch_cost w req (ok t) = expired_count w (found_group w t req.group (find req.group t.groups)).1

-- A Produce on the dead letter topic, of a record that was read from a sound log.
pub dlq-keeps :
    (m : ℕ) (w : World) (topic : Name) (t : Topic)
    → Serves m w
    → SoundTopic w.crc m t
    → (n : ℕ) (b : BrokerState) (o : ℕ) (rec : Record) → read w.crc t.wal o ≡ ok rec
    → (suc n ≤ m) × SoundBroker w.crc (suc n) b
    → (n ≤ m) × SoundBroker w.crc n (produce w b (dlq_name topic) rec.key rec.value).0
dlq-keeps m w topic t serves s n b o rec found (le, h) =
    let (key, value) = read-Short w.crc serves.crc_fits t.wal s.entries s.logs o rec found in
    (
      omega (arith, le),
      produce-SoundBroker n w (dlq_name topic) rec.key rec.value b
          (weaken-Serves m (suc n) w le serves) key value h,
    )

module _ (n : ℕ) (w : World) (req : FetchRequest) (chan : ℕ) where
  answer_or_wait-Sound :
      (b : BrokerState) (t : Topic) (msgs : List Message)
      → SoundBroker w.crc n b
      → SoundTopic w.crc n t
      → SoundBroker w.crc n (answer_or_wait w req chan b t msgs).0
  answer_or_wait-Sound b t (m ∷ msgs) h s = topic-SoundBroker w.crc n b req.topic t h s
  answer_or_wait-Sound b t [] h s =
      let pending =
        put req.group (pending_of t req.group ++ (pending_fetch w req chan ∷ []))
          t.pending_fetches in
      if_cases (λ (p : BrokerState × Result Fetched). SoundBroker w.crc n p.0)
        (req.long_poll_timeout_ms == 0) _ _ (λ _. topic-SoundBroker w.crc n b req.topic t h s)
        (λ _.
          topic-SoundBroker w.crc n b req.topic (record t { pending_fetches = pending }) h
            (record { entries = s.entries; logs = s.logs; space = s.space; groups = s.groups }))

  fetched-Sound :
      (b : BrokerState) (t : Topic) (g : Group) (r : Result (BrokerState × Group × List Message))
      → fetch_available
          (read w.crc t.wal)
          (λ b key value. produce w b (dlq_name req.topic) key value)
          (fetch_call w req)
          t.wal.next_offset
          b
          g
        ≡ r
      → Serves (expired_count w g + n) w
      → req.max_messages < 2 ^ 32
      → SoundBroker w.crc (expired_count w g + n) b
      → SoundTopic w.crc (expired_count w g + n) t
      → SoundGroup t.wal.next_offset g
      → SoundBroker w.crc n (fetched w req chan b t r).0
  fetched-Sound b t g (err e) at serves countable h s k =
      weaken-SoundBroker w.crc (expired_count w g + n) n b (omega arith) h
  fetched-Sound b t g (ok (b', g', msgs)) at serves countable h s k =
      let m = expired_count w g + n in
      let rd = read w.crc t.wal in
      let c = fetch_call w req in
      let produced =
        λ (b : BrokerState) (key value : List ℕ). produce w b (dlq_name req.topic) key value in
      let (next', delivered, high) =
        fetch_available-returned rd produced c
          (read-IsCalm w.crc serves.crc_fits t.wal s.entries s.logs)
          (read_offset w.crc serves.crc_fits t.wal s.entries s.logs) g k.until t.wal.next_offset b
          (b', g', msgs) k.order k.within (omega (arith, s.space.offsets)) countable at in
      let (_, h') =
        fetch_available-keeps rd produced c (λ k b. (k ≤ m) × SoundBroker w.crc k b)
          (λ k l b le (small, sound).
            (omega (arith, le, small), weaken-SoundBroker w.crc k l b le sound))
          (dlq-keeps m w req.topic t serves s) n g t.wal.next_offset b (b', g', msgs) at
          (omega arith, h) in
      answer_or_wait-Sound b' (record t { groups = put req.group g' t.groups }) msgs h'
        (group-SoundTopic w.crc n t req.group g' t.pending_fetches
          (weaken-SoundTopic w.crc m n t (omega arith) s)
          (record {
            until = next';
            order = delivered.order;
            within = high;
            saved = delivered.saved k.saved;
          }))

  fetch_topic-Sound :
      (p : BrokerState × Result Topic)
      → Serves (fetch_cost w req p.1 + n) w
      → req.max_messages < 2 ^ 32
      → SoundBroker w.crc (fetch_cost w req p.1 + n) p.0
      → ((t : Topic) → p.1 ≡ ok t → SoundTopic w.crc (fetch_cost w req p.1 + n) t)
      → SoundBroker w.crc n (fetch_topic w req chan p).0
  fetch_topic-Sound (b, err e) serves countable h k =
      weaken-SoundBroker w.crc (0 + n) n b (omega arith) h
  fetch_topic-Sound (b, ok t) serves countable h k =
      let (t', g) = found_group w t req.group (find req.group t.groups) in
      let (s, sg, same) =
        found_group-Sound w.crc (expired_count w g + n) w t req.group (k t refl) in
      fetched-Sound b t' g _ refl serves countable h s sg

  -- A Fetch keeps the broker sound, with a message for each expired lease of its group.
  pub fetch-SoundBroker :
      (b : BrokerState)
      → Serves (fetch_cost w req (create_topic w b req.topic).1 + n) w
      → req.max_messages < 2 ^ 32
      → SoundBroker w.crc (fetch_cost w req (create_topic w b req.topic).1 + n) b
      → SoundBroker w.crc n (fetch w b req chan).0
  unfolding fetch
  fetch-SoundBroker b serves countable h =
      let m = fetch_cost w req (create_topic w b req.topic).1 + n in
      let (h', k) = create_topic-Created m w serves req.topic b h in
      fetch_topic-Sound (create_topic w b req.topic) serves countable h' k

-- So does the timeout of a Fetch that waits.
pub fetch_timeout-SoundBroker :
    (crc : List ℕ → ℕ) (n : ℕ) (b : BrokerState) (topic group : Name) (pf : PendingFetch)
    → SoundBroker crc n b
    → SoundBroker crc n (fetch_timeout b topic group pf).0
unfolding fetch_timeout
fetch_timeout-SoundBroker crc n b topic group pf h = elim (Option-cases (find topic b.topics)) [
  | inl absent ↦ rw (absent, fetch_timeout) h
  | inr (t, there) ↦
      let s = h topic t there in
      let pending = put group (remove_fetch pf.chan (pending_of t group)) t.pending_fetches in
      rw (there, fetch_timeout)
        (topic-SoundBroker crc n b topic (record t { pending_fetches = pending }) h
          (record { entries = s.entries; logs = s.logs; space = s.space; groups = s.groups }))
]
