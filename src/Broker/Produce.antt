-- ===== src/Broker/Produce.antt =====
-- pkg/broker/coordinator.go: Produce and dispatchMessage.
pub mod Laws
mod Tests
use tumbleweed.Base.{
  ℕ, ◌+◌, Option, none, some, List, [], ◌∷◌, ◌++◌, Bool, true, false, Error, Result, ok, err, ◌==◌,
  ◌>>=◌, if◌then◌else◌, attempt,
}
use tumbleweed.Protocol.FetchResponse.{Message}
use tumbleweed.Wal.Encoding.{Record}
use tumbleweed.Wal.{Wal, append, read}
use tumbleweed.Broker.Names.{Name, find, put}
use tumbleweed.Broker.Leases.{Lease, insert}
use tumbleweed.Broker.Group.{Group, PendingFetch}
use tumbleweed.Broker.Fetch.{next_expected, message_of}
use tumbleweed.Broker.Topics.{Topic, BrokerState, World, create_topic, get_or_create_group}

-- A topic, and what was sent to waiting fetches.
abbrev pub Sending : Type 0
Sending = Topic × List (ℕ × List Message)

abbrev dispatch_lease : World → Message → PendingFetch → Lease
dispatch_lease w msg pf = record {
  offset = msg.offset;
  consumer_id = pf.consumer_id;
  expiry = w.now + pf.ack_timeout;
  redeliveries = 0;
  acked = false;
}

-- the first fetch of a group gets the message, if it is the next one
abbrev pub dispatch_first :
    World
    → Message
    → Name
    → PendingFetch
    → List PendingFetch
    → List (ℕ × List Message)
    → Topic × Group
    → Sending
dispatch_first w msg name pf rest sent (t, g) =
    if msg.offset == next_expected g.committed_offset g.leases
    then (
      record t {
        pending_fetches = put name rest t.pending_fetches;
        groups =
            put name (record g { leases = insert msg.offset (dispatch_lease w msg pf) g.leases })
              t.groups;
      },
      sent ++ ((pf.chan, msg ∷ []) ∷ []),
    )
    else (t, sent)

-- the loop over the groups with waiting fetches, with the topic's mutex held
unfoldable pub dispatch_loop :
    World → Message → List (Name × List PendingFetch) → Sending → Result Sending
dispatch_loop w msg [] s = ok s
dispatch_loop w msg ((name, []) ∷ more) s = dispatch_loop w msg more s
dispatch_loop w msg ((name, pf ∷ rest) ∷ more) (t, sent) =
    get_or_create_group w true t name >>= λ found.
    dispatch_loop w msg more (dispatch_first w msg name pf rest sent found)

unfoldable pub dispatch_message : World → Topic → List (ℕ × List Message) → Message → Result Sending
dispatch_message w t sent msg = dispatch_loop w msg t.pending_fetches (t, sent)

-- Produce, behind the dispatch
abbrev pub produced : BrokerState → Name → ℕ → Result Sending → BrokerState × Result ℕ
produced b name offset (err e) = (b, err e)
produced b name offset (ok (t, sent)) =
    (record { topics = put name t b.topics; sent = sent }, ok offset)

-- Produce, behind the Read of the new record
abbrev pub dispatch_read :
    World → BrokerState → Name → Topic → ℕ → Result (Option Record) → BrokerState × Result ℕ
dispatch_read w b name t offset (err e) = (b, err e)
dispatch_read w b name t offset (ok none) = (b, ok offset)
dispatch_read w b name t offset (ok (some rec)) =
    produced b name offset (dispatch_message w t b.sent (message_of rec))

-- Produce, behind Append
abbrev pub dispatch_appended :
    World → BrokerState → Name → Topic → Wal × Result ℕ → BrokerState × Result ℕ
dispatch_appended w b name t (wal, err e) =
    (record b { topics = put name (record t { wal = wal }) b.topics }, err e)
dispatch_appended w b name t (wal, ok offset) =
    dispatch_read w (record b { topics = put name (record t { wal = wal }) b.topics }) name
      (record t { wal = wal }) offset (attempt (read w.crc wal offset))

abbrev pub produce_on :
    World → Name → List ℕ → List ℕ → BrokerState × Result Topic → BrokerState × Result ℕ
produce_on w name key value (b, err e) = (b, err e)
produce_on w name key value (b, ok t) =
    dispatch_appended w b name t (append w.crc w.disk w.timestamp t.wal key value)

unfoldable pub produce : World → BrokerState → Name → List ℕ → List ℕ → BrokerState × Result ℕ
produce w b name key value = produce_on w name key value (create_topic w b name)
