-- ===== src/Broker/History.antt =====
-- pkg/broker/coordinator.go: the life of a consumer group as a sequence of steps, with the restarts of
-- the broker between them. `log_end` is the next offset of the topic's log, and `answered` the offsets
-- that a consumer has acknowledged, or that a fetch gave up for the dead letter topic.
pub mod Safety
mod Tests
use tumbleweed.Base.{
  ℕ, ◌+◌, ◌^◌, ◌<◌, ◌≡◌, Option, none, some, List, [], Bool, true, false, ◌||◌, ◌&&◌, leb, ltb, ◌≤◌,
  ◌==◌, Result, ok, err,
}
use tumbleweed.Protocol.FetchResponse.{Message}
use tumbleweed.Wal.Encoding.{Record}
use tumbleweed.Broker.Leases.{Lease, lookup}
use tumbleweed.Broker.Group.{Group, PendingFetch, ack_group, nack_group}
use tumbleweed.Broker.Fetch.{FetchCall, is_expired, fetch_available}
use tumbleweed.Broker.Fetch.Again.{IsCalm}
use tumbleweed.Broker.Topics.{World, new_group, loaded_group}

pub record State : Type 0 where
  pub group : Group
  pub log_end : ℕ
  pub answered : ℕ → Bool

-- a lease that a fetch sets aside
abbrev pub is_exhausted : FetchCall → Option Lease → Bool
is_exhausted c none = false
is_exhausted c (some l) = is_expired c.now l && leb c.max_redeliveries l.redeliveries

-- The log and the dead letter topic, as a fetch finds them: no call panics or blocks, and the log's
-- records have the offsets at which they are read.
pub record Surroundings {B : Type 0} (read : ℕ → Result Record)
    (produce : B → List ℕ → List ℕ → B × Result ℕ) : Type 0 where
  pub calm_read : (o : ℕ) → IsCalm (read o)
  pub calm_produce : (b : B) (key value : List ℕ) → IsCalm (produce b key value).1
  pub read_offset : (o : ℕ) (rec : Record) → read o ≡ ok rec → rec.offset ≡ o

-- One step: a record is appended to the log; an Ack, a Nack or a fetch that returns; or the broker
-- starts again. The log may have lost its end then, and what was answered there is forgotten with it.
-- The group is loaded from its state file, where the log still has the offsets in front of the committed
-- one; or there is no file that can be decoded, and the group is new.
pub data Step : State → State → Type 1 where
  appended : (s : State) → s.log_end + 1 < 2 ^ 64 → Step s (record s { log_end = s.log_end + 1 })
  acknowledged :
      (s : State) (save_ok : Bool) (offset : ℕ)
      → (ack_group save_ok s.group offset).1 ≡ ok tt
      → Step s (record s {
        group = (ack_group save_ok s.group offset).0;
        answered = λ o. offset == o || s.answered o;
      })
  refused :
      (s : State) (now : ℕ) (fetches : List PendingFetch) (offset : ℕ)
      → Step s (record s { group = (nack_group now s.group fetches offset).0 })
  delivered :
      (s : State) {B : Type 0} (read : ℕ → Result Record)
      (produce : B → List ℕ → List ℕ → B × Result ℕ) (c : FetchCall) (b : B)
      (out : B × Group × List Message)
      → Surroundings read produce
      → c.max_count < 2 ^ 32
      → fetch_available read produce c s.log_end b s.group ≡ ok out
      → Step s (record s {
        group = out.1;
        answered = λ o. is_exhausted c (lookup o s.group.leases) || s.answered o;
      })
  restarted :
      (s : State) (n m : ℕ)
      → s.group.saved ≡ some n
      → n ≤ m
      → m ≤ s.log_end
      → Step s
          (record { group = loaded_group n; log_end = m; answered = λ o. ltb o m && s.answered o })
  restarted_afresh :
      (s : State) (w : World) (m : ℕ)
      → m ≤ s.log_end
      → Step s
          (record { group = new_group w; log_end = m; answered = λ o. ltb o m && s.answered o })

pub data Reach (s : State) : State → Type 1 where
  here : Reach s s
  next : {t u : State} → Reach s t → Step t u → Reach s u

-- A group that is new: nothing is committed, leased or saved.
abbrev pub first_state : ℕ → State
first_state log_end = record {
  group = record { committed_offset = 0; leases = []; saved = none };
  log_end = log_end;
  answered = λ o. false;
}
