-- ===== src/Broker/Sound/Runs.antt =====
-- pkg/broker/coordinator.go: any sequence of calls on a broker.
use tumbleweed.Base.{
  ℕ, suc, ◌+◌, ◌^◌, ◌<◌, ◌≡◌, refl, sym, subst, inl, inr, none, some, List, [], ◌∷◌, length,
  Option-cases, Result, ok, err, bind-ok, arith,
}
use tumbleweed.Protocol.FetchRequest.{FetchRequest}
use tumbleweed.Broker.Names.{Name, find}
use tumbleweed.Broker.Group.{PendingFetch}
use tumbleweed.Broker.Topics.{
  Topic, BrokerState, World, create_topic, load_rest, load_topics, new_broker,
}
use tumbleweed.Broker.Produce.{produce}
use tumbleweed.Broker.Requests.{fetch, fetch_timeout, ack, nack}
use tumbleweed.Broker.Expiry.{check_topic}
use tumbleweed.Broker.Sound.{SoundBroker, weaken-SoundBroker}
use tumbleweed.Broker.Sound.Answers.{ack-SoundBroker, nack-SoundBroker}
use tumbleweed.Broker.Sound.Appends.{
  Serves, weaken-Serves, create_topic-Created, produce-SoundBroker,
}
use tumbleweed.Broker.Sound.Fetches.{fetch_cost, fetch-SoundBroker, fetch_timeout-SoundBroker}
use tumbleweed.Broker.Sound.Checks.{check_expired_leases-SoundBroker}

-- The calls on a broker, and the end of a Fetch that waited.
pub data Request : Type 0 where
  creating : Name → Request
  producing : Name → List ℕ → List ℕ → Request
  fetching : FetchRequest → ℕ → Request
  timing_out : Name → Name → PendingFetch → Request
  acking nacking : Name → Name → ℕ → Request
  checking : Name → Request

unfoldable pub serve : World → Request → BrokerState → BrokerState
serve w (creating name) b = (create_topic w b name).0
serve w (producing name key value) b = (produce w b name key value).0
serve w (fetching req chan) b = (fetch w b req chan).0
serve w (timing_out topic group pf) b = (fetch_timeout b topic group pf).0
serve w (acking topic group offset) b = (ack w b topic group offset).0
serve w (nacking topic group offset) b = (nack w b topic group offset).0
serve w (checking topic) b = check_topic w topic b

-- How many messages a call may append.
unfoldable pub cost : World → Request → BrokerState → ℕ
cost w (producing name key value) b = 1
cost w (fetching req chan) b = fetch_cost w req (create_topic w b req.topic).1
cost w (checking topic) b = elim (find topic b.topics) [
  | none ↦ 0
  | some t ↦ length t.pending_fetches
]
cost w _ b = 0

-- Each call finds its own world.
unfoldable pub run : List (World × Request) → BrokerState → BrokerState
run [] b = b
run ((w, r) ∷ more) b = run more (serve w r b)

unfoldable pub cost_of_run : List (World × Request) → BrokerState → ℕ
cost_of_run [] b = 0
cost_of_run ((w, r) ∷ more) b = cost w r b + cost_of_run more (serve w r b)

-- The lengths and counts in a request fit their fields.
abbrev pub RequestFits : Request → Type 0
RequestFits (producing name key value) = (length key < 2 ^ 32) × (length value < 2 ^ 32)
RequestFits (fetching req chan) = req.max_messages < 2 ^ 32
RequestFits _ = Unit {0}

-- Every request fits, and its call finds files, a clock and a checksum on which it can rely.
abbrev pub Served : (List ℕ → ℕ) → ℕ → List (World × Request) → BrokerState → Type 0
Served crc n [] b = Unit {0}
Served crc n ((w, r) ∷ more) b =
    (w.crc ≡ crc)
    × RequestFits r
    × Serves (cost_of_run ((w, r) ∷ more) b + n) w
    × Served crc n more (serve w r b)

module _ (n : ℕ) (w : World) (b : BrokerState) where
  check_topic-SoundBroker :
      (topic : Name)
      → Serves (cost w (checking topic) b + n) w
      → SoundBroker w.crc (cost w (checking topic) b + n) b
      → SoundBroker w.crc n (check_topic w topic b)
  unfolding cost
  check_topic-SoundBroker topic serves h =
      let all = cost w (checking topic) b + n in
      elim (Option-cases (find topic b.topics)) [
        | inl absent ↦ rw (absent, check_topic) (weaken-SoundBroker w.crc all n b (omega arith) h)
        | inr (t, there) ↦
            let m = length t.pending_fetches + n in
            let is : cost w (checking topic) b ≡ length t.pending_fetches = rw (there, cost) refl in
            let h' = weaken-SoundBroker w.crc all m b (omega (arith, is)) h in
            rw (there, check_topic)
              (check_expired_leases-SoundBroker w topic n b t
                (weaken-Serves all m w (omega (arith, is)) serves) h' (h' topic t there))
      ]

  serve-SoundBroker :
      (r : Request)
      → RequestFits r
      → Serves (cost w r b + n) w
      → SoundBroker w.crc (cost w r b + n) b
      → SoundBroker w.crc n (serve w r b)
  unfolding serve cost
  serve-SoundBroker (creating name) fits serves h =
      (create_topic-Created n w (weaken-Serves (0 + n) n w (omega arith) serves) name b
        (weaken-SoundBroker w.crc (0 + n) n b (omega arith) h)).0
  serve-SoundBroker (producing name key value) (short_key, short_value) serves h =
      produce-SoundBroker n w name key value b
        (weaken-Serves (1 + n) (suc n) w (omega arith) serves) short_key short_value
        (weaken-SoundBroker w.crc (1 + n) (suc n) b (omega arith) h)
  serve-SoundBroker (fetching req chan) fits serves h =
      fetch-SoundBroker n w req chan b serves fits h
  serve-SoundBroker (timing_out topic group pf) fits serves h =
      fetch_timeout-SoundBroker w.crc n b topic group pf
        (weaken-SoundBroker w.crc (0 + n) n b (omega arith) h)
  serve-SoundBroker (acking topic group offset) fits serves h =
      ack-SoundBroker w.crc n w b topic group offset
        (weaken-SoundBroker w.crc (0 + n) n b (omega arith) h)
  serve-SoundBroker (nacking topic group offset) fits serves h =
      nack-SoundBroker w.crc n w b topic group offset
        (weaken-SoundBroker w.crc (0 + n) n b (omega arith) h)
  serve-SoundBroker (checking topic) fits serves h = check_topic-SoundBroker topic serves h

run-SoundBroker :
    (crc : List ℕ → ℕ) (n : ℕ) (rs : List (World × Request)) (b : BrokerState)
    → Served crc n rs b
    → SoundBroker crc (cost_of_run rs b + n) b
    → SoundBroker crc n (run rs b)
unfolding run cost_of_run
run-SoundBroker crc n [] b served h = weaken-SoundBroker crc (0 + n) n b (omega arith) h
run-SoundBroker crc n ((w, r) ∷ more) b (same, fits, serves, rest) h =
    let all = cost_of_run ((w, r) ∷ more) b + n in
    let left = cost_of_run more (serve w r b) + n in
    let one = cost w r b + left in
    let h' =
      subst (λ c. SoundBroker c one b) (sym same)
        (weaken-SoundBroker crc all one b (omega arith) h) in
    run-SoundBroker crc n more (serve w r b) rest (
      subst (λ c. SoundBroker c left (serve w r b)) same
        (serve-SoundBroker left w b r fits (weaken-Serves all one w (omega arith) serves) h'))

load_rest-SoundBroker :
    (crc : List ℕ → ℕ) (n : ℕ) (next : BrokerState → BrokerState × Result (Unit {0}))
    (p : BrokerState × Result Topic)
    → ((b : BrokerState) → SoundBroker crc n b → SoundBroker crc n (next b).0)
    → SoundBroker crc n p.0
    → SoundBroker crc n (load_rest next p).0
load_rest-SoundBroker crc n next (b, err e) k h = h
load_rest-SoundBroker crc n next (b, ok t) k h = k b h

load_topics-SoundBroker :
    (n : ℕ) (w : World) (b : BrokerState) (dirs : List Name)
    → Serves n w
    → SoundBroker w.crc n b
    → SoundBroker w.crc n (load_topics w b dirs).0
unfolding load_topics
load_topics-SoundBroker n w b [] serves h = h
load_topics-SoundBroker n w b (name ∷ rest) serves h =
    load_rest-SoundBroker w.crc n (λ b. load_topics w b rest) (create_topic w b name)
      (λ b k. load_topics-SoundBroker n w b rest serves k)
      (create_topic-Created n w serves name b h).0

new_broker-SoundBroker :
    (n : ℕ) (w : World) (dirs : Result (List Name)) (b : BrokerState)
    → Serves n w
    → new_broker w dirs ≡ ok b
    → SoundBroker w.crc n b
unfolding new_broker find
new_broker-SoundBroker n w (err e) b serves made = absurd (cc)
new_broker-SoundBroker n w (ok found) b serves made =
    let empty : BrokerState = record { topics = []; sent = [] } in
    let p = load_topics w empty found in
    let (_, _, last) = bind-ok p.1 (λ _. ok p.0) b made in
    let same : p.0 ≡ b = cc in
    subst (SoundBroker w.crc n) same
      (load_topics-SoundBroker n w empty found serves (λ k t at. absurd (cc)))

-- A broker that NewBroker returned, and then any calls on it, one after the other, each with any
-- failures of the system around it: the checksum is the same for all and has 32 bits, the clock has 64,
-- the lengths in the requests fit their fields, a topic that is opened has files in order, and 2 ^ 60
-- offsets are more than the calls can use up. Then every topic's log is in order, and each of its groups
-- hands out the offsets of that log without a gap, not past its end, with a state file that is not ahead.
pub run-SoundBroker_from_new :
    (n : ℕ) (w : World) (dirs : Result (List Name)) (b : BrokerState) (rs : List (World × Request))
    → Serves (cost_of_run rs b + n) w
    → new_broker w dirs ≡ ok b
    → Served w.crc n rs b
    → SoundBroker w.crc n (run rs b)
run-SoundBroker_from_new n w dirs b rs serves made served =
    run-SoundBroker w.crc n rs b served
      (new_broker-SoundBroker (cost_of_run rs b + n) w dirs b serves made)
