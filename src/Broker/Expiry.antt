-- ===== src/Broker/Expiry.antt =====
-- pkg/broker/coordinator.go: checkExpiredLeases, which runs with the topic's mutex held.
use tumbleweed.Base.{
  ℕ, Option, none, some, List, [], ◌∷◌, ◌++◌, true, ltb, leb, Result, ok, err, panics, ◌>>=◌,
  if◌then◌else◌, attempt,
}
use tumbleweed.Wal.Encoding.{Record}
use tumbleweed.Wal.{read}
use tumbleweed.Broker.Names.{Name, find, put, names}
use tumbleweed.Broker.Leases.{Lease, Leases, lookup}
use tumbleweed.Broker.Group.{Group, PendingFetch, slide_window}
use tumbleweed.Broker.Fetch.{FetchCall, message_of, is_expired, divert, renew_lease, set_lease}
use tumbleweed.Broker.Topics.{Topic, BrokerState, World}
use tumbleweed.Broker.Produce.{produce}
use tumbleweed.Broker.Requests.{dlq_name}

abbrev pub lesser : ℕ → Option ℕ → Option ℕ
lesser o none = some o
lesser o (some best) = some (if ltb o best then o else best)

-- the least offset under an expired lease
unfoldable pub first_expired : ℕ → Leases → Option ℕ → Option ℕ
first_expired now [] found = found
first_expired now ((o, l) ∷ m) found =
    first_expired now m (if is_expired now l then lesser o found else found)

-- the arguments of the waiting fetch, as those of a call
abbrev pub call_of : World → PendingFetch → FetchCall
call_of w pf = record {
  consumer_id = pf.consumer_id;
  max_count = 1;
  ack_timeout = pf.ack_timeout;
  now = w.now;
  max_redeliveries = w.config.max_redeliveries;
  save_ok = w.save_ok;
}

-- What the check of a group works on: the rest of the broker, and the topic.
abbrev pub Checking : Type 0
Checking = BrokerState × Topic

abbrev pub put_group : Topic → Name → Group → Topic
put_group t name g = record t { groups = put name g t.groups }

abbrev pub redeliver :
    World → BrokerState → Topic → Name → Group → PendingFetch → ℕ → Lease → Option Record → Checking
redeliver w b t name g pf o l none = (b, t)
redeliver w b t name g pf o l (some rec) = (
  record b { sent = b.sent ++ ((pf.chan, message_of rec ∷ []) ∷ []) },
  put_group t name (set_lease g o (renew_lease (call_of w pf) l)),
)

abbrev pub check_lease :
    World
    → Name
    → BrokerState
    → Topic
    → Name
    → Group
    → PendingFetch
    → ℕ
    → Option Lease
    → Result Checking
check_lease w topic b t name g pf o none = err panics
check_lease w topic b t name g pf o (some l) = attempt (read w.crc t.wal o) >>= λ found.
    if leb w.config.max_redeliveries l.redeliveries
    then (do
      b ←
          divert (read w.crc t.wal) (λ b key value. produce w b (dlq_name topic) key value)
            (call_of w pf) b found
      ok (b, put_group t name (slide_window w.save_ok (set_lease g o (record l { acked = true })))))
    else ok (redeliver w b t name g pf o l found)

-- a group with a waiting fetch: the fetch leaves the queue where a lease is expired
abbrev pub check_group :
    World
    → Name
    → BrokerState
    → Topic
    → Name
    → Group
    → PendingFetch
    → List PendingFetch
    → Option ℕ
    → Result Checking
check_group w topic b t name g pf rest none = ok (b, t)
check_group w topic b t name g pf rest (some o) =
    check_lease w topic b (record t { pending_fetches = put name rest t.pending_fetches }) name g pf
      o (lookup o g.leases)

abbrev pub check_found :
    World
    → Name
    → BrokerState
    → Topic
    → Name
    → PendingFetch
    → List PendingFetch
    → Option Group
    → Result Checking
check_found w topic b t name pf rest none = ok (b, t)
check_found w topic b t name pf rest (some g) =
    check_group w topic b t name g pf rest (first_expired w.now g.leases none)

-- the loop over the groups with waiting fetches
unfoldable pub check_loop :
    World → Name → List (Name × List PendingFetch) → Checking → Result Checking
check_loop w topic [] s = ok s
check_loop w topic ((name, []) ∷ more) s = check_loop w topic more s
check_loop w topic ((name, pf ∷ rest) ∷ more) (b, t) =
    check_found w topic b t name pf rest (find name t.groups) >>= check_loop w topic more

abbrev pub checked : BrokerState → Name → Result Checking → BrokerState × Result (Unit {0})
checked b topic (err e) = (b, err e)
checked b topic (ok (b', t)) = (record b' { topics = put topic t b'.topics }, ok tt)

unfoldable pub check_expired_leases :
    World → BrokerState → Name → Topic → BrokerState × Result (Unit {0})
check_expired_leases w b topic t = checked b topic (check_loop w topic t.pending_fetches (b, t))

-- The check of the topic with this name, as it then is.
abbrev pub check_topic : World → Name → BrokerState → BrokerState
check_topic w topic b = elim (find topic b.topics) [
  | none ↦ b
  | some t ↦ (check_expired_leases w b topic t).0
]

-- One tick of leaseExpiryLoop, over the topics that there are; `worlds` has what each check finds.
unfoldable pub check_topics : (Name → World) → List Name → BrokerState → BrokerState
check_topics worlds [] b = b
check_topics worlds (topic ∷ rest) b = check_topics worlds rest (check_topic (worlds topic) topic b)

unfoldable pub lease_tick : (Name → World) → BrokerState → BrokerState
lease_tick worlds b = check_topics worlds (names b.topics) b
