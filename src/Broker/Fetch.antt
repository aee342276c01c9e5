-- ===== src/Broker/Fetch.antt =====
-- pkg/broker/coordinator.go: fetchAvailable on a group, under its mutex. `read` is the log's Read, and
-- `produce` is the broker's Produce on the dead letter topic, with the rest of the broker's state. A map
-- is visited in the order of its list. The clock is read once for a call.
pub mod Next
pub mod Expired
pub mod Delivered
pub mod Again
pub mod Fetched
pub mod OnLog
pub mod Returned
mod Tests
use tumbleweed.Base.{
  ℕ, zero, suc, ◌+◌, ◌-◌, ◌%◌, ◌^◌, Option, none, some, List, [], ◌∷◌, ◌++◌, Bool, true, false, not,
  ◌&&◌, length, ltb, leb, if◌then◌else◌, Result, ok, err, panics, ◌>>=◌, attempt,
}
use tumbleweed.Protocol.FetchResponse.{Message}
use tumbleweed.Wal.Encoding.{Record}
use tumbleweed.Broker.Leases.{Lease, Leases, lookup, insert}
use tumbleweed.Broker.Group.{Group, slide_window}
use tumbleweed.Broker.Sort.{sort_offsets}

-- The arguments of a fetch, the clock, the broker's limit, and whether the group's state can be saved.
pub record FetchCall : Type 0 where
  pub consumer_id : List ℕ
  pub max_count : ℕ
  pub ack_timeout : ℕ
  pub now : ℕ
  pub max_redeliveries : ℕ
  pub save_ok : Bool

abbrev pub is_expired : ℕ → Lease → Bool
is_expired now l = not l.acked && ltb l.expiry now

unfoldable pub expired_offsets : ℕ → Leases → List ℕ
expired_offsets now [] = []
expired_offsets now ((o, l) ∷ m) =
    let rest = expired_offsets now m in if is_expired now l then o ∷ rest else rest

-- the next offset to hand out: behind the committed ones and every lease
unfoldable pub next_expected : ℕ → Leases → ℕ
next_expected next [] = next
next_expected next ((o, l) ∷ m) = next_expected (if leb next o then (o + 1) % 2 ^ 64 else next) m

abbrev pub message_of : Record → Message
message_of rec = record {
  offset = rec.offset;
  timestamp = rec.timestamp;
  key = rec.key;
  value = rec.value;
}

-- the lease of a message that is delivered again, and of one that is delivered first
abbrev pub renew_lease : FetchCall → Lease → Lease
renew_lease c l = record l {
  consumer_id = c.consumer_id;
  expiry = c.now + c.ack_timeout;
  redeliveries = l.redeliveries + 1;
}

abbrev pub new_lease : FetchCall → ℕ → Lease
new_lease c o = record {
  offset = o;
  consumer_id = c.consumer_id;
  expiry = c.now + c.ack_timeout;
  redeliveries = 0;
  acked = false;
}

abbrev pub set_lease : Group → ℕ → Lease → Group
set_lease g o l = record g { leases = insert o l g.leases }

abbrev pub is_full : FetchCall → List Message → Bool
is_full c msgs = leb c.max_count (length msgs % 2 ^ 32)

module _ {B : Type 0} (read : ℕ → Result Record) (produce : B → List ℕ → List ℕ → B × Result ℕ)
    (c : FetchCall) where
  -- What the error of Produce says is ignored.
  abbrev pub diverted : B × Result ℕ → Result B
  diverted (b, r) = do _ ← attempt r; ok b

  -- a record that was delivered too often goes to the dead letter topic, if it can be read
  abbrev pub divert : B → Option Record → Result B
  divert b none = ok b
  divert b (some rec) = diverted (produce b rec.key rec.value)

  -- one expired offset
  abbrev pub deliver_again :
      B → Group → List Message → ℕ → Option Lease → Result (B × Group × List Message)
  deliver_again b g msgs o none = err panics
  deliver_again b g msgs o (some l) =
      if leb c.max_redeliveries l.redeliveries
      then (do
        found ← attempt (read o)
        b ← divert b found
        ok (b, slide_window c.save_ok (set_lease g o (record l { acked = true })), msgs))
      else (do
        found ← attempt (read o)
        ok (elim found [
          | none ↦ (b, g, msgs)
          | some rec ↦ (b, set_lease g o (renew_lease c l), msgs ++ (message_of rec ∷ []))
        ]))

  unfoldable pub deliver_expired :
      List ℕ → B → Group → List Message → Result (B × Group × List Message)
  deliver_expired [] b g msgs = ok (b, g, msgs)
  deliver_expired (o ∷ os) b g msgs =
      let more =
        deliver_again b g msgs o (lookup o g.leases) >>= λ s. deliver_expired os s.0 s.1 s.2 in
      if is_full c msgs then ok (b, g, msgs) else more

module _ (read : ℕ → Result Record) (c : FetchCall) where
  abbrev pub deliver_next :
      (Group → List Message → Result (Group × List Message))
      → Group
      → List Message
      → ℕ
      → Option Record
      → Result (Group × List Message)
  deliver_next next g msgs o none = ok (g, msgs)
  deliver_next next g msgs o (some rec) =
      next (set_lease g o (new_lease c o)) (msgs ++ (message_of rec ∷ []))

  -- The loop over new offsets. Each round moves up by one, so `wal_next - next` rounds are enough.
  unfoldable pub deliver_new : ℕ → ℕ → ℕ → Group → List Message → Result (Group × List Message)
  deliver_new zero wal_next next g msgs = ok (g, msgs)
  deliver_new (suc fuel) wal_next next g msgs =
      let more = attempt (read next) >>= λ found.
      deliver_next (deliver_new fuel wal_next ((next + 1) % 2 ^ 64)) g msgs next found in
      if ltb next wal_next && not (is_full c msgs) then more else ok (g, msgs)

module _ {B : Type 0} (read : ℕ → Result Record) (produce : B → List ℕ → List ℕ → B × Result ℕ)
    (c : FetchCall) where
  unfoldable pub fetch_available : ℕ → B → Group → Result (B × Group × List Message)
  fetch_available wal_next b g = do
    (b, g, msgs) ←
        deliver_expired read produce c (sort_offsets (expired_offsets c.now g.leases)) b g []
    let next = next_expected g.committed_offset g.leases
    (g, msgs) ← deliver_new read c (wal_next - next) wal_next next g msgs
    ok (b, g, msgs)
