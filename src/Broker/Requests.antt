-- ===== src/Broker/Requests.antt =====
-- pkg/broker/coordinator.go: Fetch, Ack and Nack. A Fetch that waits is two steps: it leaves its
-- PendingFetch in the queue; and if nothing is sent on its channel in time, it takes it out again.
use tumbleweed.Base.{
  ℕ, ◌+◌, ◌*◌, ◌==◌, Option, none, some, List, [], ◌∷◌, ◌++◌, Result, ok, err, topic_not_found,
  ◌>>=◌, if◌then◌else◌, attempt,
}
use tumbleweed.Protocol.FetchRequest.{FetchRequest}
use tumbleweed.Protocol.FetchResponse.{Message}
use tumbleweed.Wal.Encoding.{Record}
use tumbleweed.Wal.{read}
use tumbleweed.Broker.Names.{Name, find, put}
use tumbleweed.Broker.Group.{Group, PendingFetch, ack_group, nack_group}
use tumbleweed.Broker.Fetch.{FetchCall, message_of, fetch_available}
use tumbleweed.Broker.Topics.{Topic, BrokerState, World, create_topic, found_group}
use tumbleweed.Broker.Produce.{produce}

-- "-dlq"
abbrev pub dlq_name : Name → Name
dlq_name name = name ++ (45 ∷ 100 ∷ 108 ∷ 113 ∷ [])

-- `t.pendingFetches[name]`; a name that is not there has no fetches
abbrev pub pending_of : Topic → Name → List PendingFetch
pending_of t name = elim (find name t.pending_fetches) [ none ↦ [] | some fetches ↦ fetches ]

-- What a Fetch answers, or the PendingFetch with which it waits.
pub data Fetched : Type 0 where
  answered : List Message → Fetched
  waiting : PendingFetch → Fetched

abbrev pub ack_timeout_of : World → FetchRequest → ℕ
ack_timeout_of w req =
    if req.ack_timeout_ms == 0
    then w.config.default_lease_timeout
    else req.ack_timeout_ms * 1_000_000

abbrev pub fetch_call : World → FetchRequest → FetchCall
fetch_call w req = record {
  consumer_id = req.consumer_id;
  max_count = req.max_messages;
  ack_timeout = ack_timeout_of w req;
  now = w.now;
  max_redeliveries = w.config.max_redeliveries;
  save_ok = w.save_ok;
}

abbrev pub pending_fetch : World → FetchRequest → ℕ → PendingFetch
pending_fetch w req chan = record {
  consumer_id = req.consumer_id;
  max_messages = req.max_messages;
  ack_timeout = ack_timeout_of w req;
  chan = chan;
  expiry = w.now + req.long_poll_timeout_ms * 1_000_000;
}

abbrev pub put_topic : BrokerState → Name → Topic → BrokerState
put_topic b name t = record b { topics = put name t b.topics }

-- Fetch, with the messages at hand; `chan` is the new channel
abbrev pub answer_or_wait :
    World → FetchRequest → ℕ → BrokerState → Topic → List Message → BrokerState × Result Fetched
answer_or_wait w req chan b t (m ∷ msgs) = (put_topic b req.topic t, ok (answered (m ∷ msgs)))
answer_or_wait w req chan b t [] =
    let pf = pending_fetch w req chan in
    if req.long_poll_timeout_ms == 0 then (put_topic b req.topic t, ok (answered [])) else (
      put_topic b req.topic (record t {
        pending_fetches = put req.group (pending_of t req.group ++ (pf ∷ [])) t.pending_fetches;
      }),
      ok (waiting pf),
    )

abbrev pub fetched :
    World
    → FetchRequest
    → ℕ
    → BrokerState
    → Topic
    → Result (BrokerState × Group × List Message)
    → BrokerState × Result Fetched
fetched w req chan b t (err e) = (b, err e)
fetched w req chan b t (ok (b', g, msgs)) =
    answer_or_wait w req chan b' (record t { groups = put req.group g t.groups }) msgs

abbrev pub fetch_on :
    World → FetchRequest → ℕ → BrokerState → Topic × Group → BrokerState × Result Fetched
fetch_on w req chan b (t, g) = fetched w req chan b t (
    fetch_available (read w.crc t.wal) (λ b key value. produce w b (dlq_name req.topic) key value)
      (fetch_call w req) t.wal.next_offset b g)

abbrev pub fetch_topic :
    World → FetchRequest → ℕ → BrokerState × Result Topic → BrokerState × Result Fetched
fetch_topic w req chan (b, err e) = (b, err e)
fetch_topic w req chan (b, ok t) =
    fetch_on w req chan b (found_group w t req.group (find req.group t.groups))

unfoldable pub fetch : World → BrokerState → FetchRequest → ℕ → BrokerState × Result Fetched
fetch w b req chan = fetch_topic w req chan (create_topic w b req.topic)

-- the first fetch that is this one is taken out
unfoldable pub remove_fetch : ℕ → List PendingFetch → List PendingFetch
remove_fetch chan [] = []
remove_fetch chan (f ∷ fetches) = if f.chan == chan then fetches else f ∷ remove_fetch chan fetches

-- the end of a Fetch that waited in vain
unfoldable pub fetch_timeout :
    BrokerState → Name → Name → PendingFetch → BrokerState × Result (List Message)
fetch_timeout b topic group pf = elim (find topic b.topics) [
  | none ↦ (b, ok [])
  | some t ↦ (
    put_topic b topic (record t {
      pending_fetches = put group (remove_fetch pf.chan (pending_of t group)) t.pending_fetches;
    }),
    ok [],
  )
]

abbrev pub acked :
    BrokerState → Name → Name → Topic → Group × Result (Unit {0}) → BrokerState × Result (Unit {0})
acked b topic group t (g, r) = (put_topic b topic (record t { groups = put group g t.groups }), r)

abbrev pub ack_on :
    World → BrokerState → Name → Name → ℕ → Topic × Group → BrokerState × Result (Unit {0})
ack_on w b topic group offset (t, g) = acked b topic group t (ack_group w.save_ok g offset)

unfoldable pub ack : World → BrokerState → Name → Name → ℕ → BrokerState × Result (Unit {0})
ack w b topic group offset = elim (find topic b.topics) [
  | none ↦ (b, err topic_not_found)
  | some t ↦ ack_on w b topic group offset (found_group w t group (find group t.groups))
]

-- the record at the offset goes to the fetch that is served, if the log can read it
abbrev pub send_record :
    List (ℕ × List Message) → PendingFetch → Option Record → List (ℕ × List Message)
send_record sent pf none = sent
send_record sent pf (some rec) = sent ++ ((pf.chan, message_of rec ∷ []) ∷ [])

abbrev pub send_to : World → BrokerState → Topic → ℕ → Option PendingFetch → Result BrokerState
send_to w b t offset none = ok b
send_to w b t offset (some pf) = attempt (read w.crc t.wal offset) >>= λ found.
    ok (record b { sent = send_record b.sent pf found })

abbrev pub nack_sent : BrokerState → Result BrokerState → BrokerState × Result (Unit {0})
nack_sent b (ok b') = (b', ok tt)
nack_sent b (err e) = (b, err e)

abbrev pub nacked :
    World
    → BrokerState
    → Name
    → Name
    → ℕ
    → Topic
    → Group × List PendingFetch × Result (Option PendingFetch)
    → BrokerState × Result (Unit {0})
nacked w b topic group offset t (g, rest, err e) =
    (put_topic b topic (record t { groups = put group g t.groups }), err e)
nacked w b topic group offset t (g, rest, ok served) =
    let t' = record t {
      groups = put group g t.groups;
      pending_fetches = elim served [
        | none ↦ t.pending_fetches
        | some _ ↦ put group rest t.pending_fetches
      ];
    } in
    nack_sent (put_topic b topic t') (send_to w (put_topic b topic t') t' offset served)

abbrev pub nack_on :
    World → BrokerState → Name → Name → ℕ → Topic × Group → BrokerState × Result (Unit {0})
nack_on w b topic group offset (t, g) =
    nacked w b topic group offset t (nack_group w.now g (pending_of t group) offset)

unfoldable pub nack : World → BrokerState → Name → Name → ℕ → BrokerState × Result (Unit {0})
nack w b topic group offset = elim (find topic b.topics) [
  | none ↦ (b, err topic_not_found)
  | some t ↦ nack_on w b topic group offset (found_group w t group (find group t.groups))
]
