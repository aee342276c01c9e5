-- ===== src/Broker/Sound.antt =====
-- pkg/broker/coordinator.go: what holds of the whole broker between two calls: each topic's log is in
-- order, and each of its groups hands out the offsets of that log without a gap.
pub mod Answers
pub mod Appends
pub mod Fetches
pub mod Checks
pub mod Runs
pub mod Opens
pub mod Stored
mod Tests
use tumbleweed.Base.{
  ℕ, zero, suc, ◌+◌, ◌*◌, ◌^◌, ◌≤◌, ◌<◌, ◌≡◌, refl, sym, ap, subst, ◌∙◌, inl, inr, Option, none,
  some, List, [], ◌∷◌, length, Bool, true, false, Bool-cases, if_cases, ok, arith,
}
use tumbleweed.Wal.Encoding.Layout.{Entry}
use tumbleweed.Wal.{Wal}
use tumbleweed.Wal.Log.{Logs}
use tumbleweed.Broker.Names.{
  Name, same_name, eq_of_same_name, find, put, find-put_self, find-put_other,
}
use tumbleweed.Broker.Leases.{lookup}
use tumbleweed.Broker.Group.{Group, PendingFetch, persist_state, ack_group, nack_group}
use tumbleweed.Broker.Group.Order.{InOrder, ack_group-InOrder, nack_group-InOrder}
use tumbleweed.Broker.Group.Window.{IsSavedBehind}
use tumbleweed.Broker.History.Safety.{ack_group-IsSavedBehind, nack_group-IsSavedBehind}
use tumbleweed.Broker.Topics.{Topic, BrokerState, World, new_group, found_group}

-- what holds of every value of a map
abbrev pub Every : {V : Type 0} → (V → Type 0) → List (Name × V) → Type 0
Every {V} P m = (k : Name) (v : V) → find k m ≡ some v → P v

pub put-Every :
    {V : Type 0} (P : V → Type 0) (name : Name) (x : V) (m : List (Name × V))
    → Every P m
    → P x
    → Every P (put name x m)
put-Every P name x m h p k v at = elim (Bool-cases (same_name name k)) [
  | inl e ↦
      let here = ap (λ j. find j (put name x m)) (eq_of_same_name name k e) in
      let self = find-put_self name x m in let same : x ≡ v = cc in subst P same p
  | inr e ↦ h k v (sym (find-put_other name k x m e) ∙ at)
]

-- A group that hands out the offsets of a log that ends at `log_end`, without a gap.
pub record SoundGroup (log_end : ℕ) (g : Group) : Type 0 where
  pub until : ℕ
  pub order : InOrder g until
  pub within : until ≤ log_end
  pub saved : IsSavedBehind g

pub later-SoundGroup : (m n : ℕ) (g : Group) → m ≤ n → SoundGroup m g → SoundGroup n g
later-SoundGroup m n g le h = record {
  until = h.until;
  order = h.order;
  within = omega (arith, h.within, le);
  saved = h.saved;
}

-- The bounds that the machine numbers need, where `n` messages may still be appended.
pub record Space (n : ℕ) (wal : Wal) : Type 0 where
  pub offsets : wal.next_offset + n < 2 ^ 60
  pub some_limit : 0 < wal.max_segment_bytes
  pub limit : wal.max_segment_bytes ≤ 2 ^ 62
  pub active : wal.active.size ≤ 2 ^ 62 + 2 ^ 34

pub record SoundTopic (crc : List ℕ → ℕ) (n : ℕ) (t : Topic) : Type 0 where
  pub entries : List Entry
  pub logs : Logs crc t.wal 0 entries
  pub space : Space n t.wal
  pub groups : Every (SoundGroup t.wal.next_offset) t.groups

abbrev pub SoundBroker : (List ℕ → ℕ) → ℕ → BrokerState → Type 0
SoundBroker crc n b = Every (SoundTopic crc n) b.topics

pub weaken-SoundTopic :
    (crc : List ℕ → ℕ) (m n : ℕ) (t : Topic) → n ≤ m → SoundTopic crc m t → SoundTopic crc n t
weaken-SoundTopic crc m n t le h = record {
  entries = h.entries;
  logs = h.logs;
  space = record {
    offsets = omega (arith, h.space.offsets, le);
    some_limit = h.space.some_limit;
    limit = h.space.limit;
    active = h.space.active;
  };
  groups = h.groups;
}

pub weaken-SoundBroker :
    (crc : List ℕ → ℕ) (m n : ℕ) (b : BrokerState)
    → n ≤ m
    → SoundBroker crc m b
    → SoundBroker crc n b
weaken-SoundBroker crc m n b le h k t at = weaken-SoundTopic crc m n t le (h k t at)

-- A topic is put back with a group that changed.
pub group-SoundTopic :
    (crc : List ℕ → ℕ) (n : ℕ) (t : Topic) (name : Name) (g : Group)
    (pending : List (Name × List PendingFetch))
    → SoundTopic crc n t
    → SoundGroup t.wal.next_offset g
    → SoundTopic crc n (record t { groups = put name g t.groups; pending_fetches = pending })
group-SoundTopic crc n t name g pending h k = record {
  entries = h.entries;
  logs = h.logs;
  space = h.space;
  groups = put-Every (SoundGroup t.wal.next_offset) name g t.groups h.groups k;
}

pub topic-SoundBroker :
    (crc : List ℕ → ℕ) (n : ℕ) (b : BrokerState) (name : Name) (t : Topic)
    → SoundBroker crc n b
    → SoundTopic crc n t
    → SoundBroker crc n (record b { topics = put name t b.topics })
topic-SoundBroker crc n b name t h s = put-Every (SoundTopic crc n) name t b.topics h s

new_group-SoundGroup : (w : World) (log_end : ℕ) → SoundGroup log_end (new_group w)
unfolding persist_state lookup
new_group-SoundGroup w log_end =
    if_cases (SoundGroup log_end) w.save_ok _ _
      (λ _. record {
        until = 0;
        order = empty-InOrder (some 0);
        within = omega arith;
        saved = λ n e. let same : 0 ≡ n = cc in omega (arith, same);
      })
      (λ _. record {
        until = 0;
        order = empty-InOrder none;
        within = omega arith;
        saved = λ n e. absurd (cc);
      })
  where
    empty-InOrder :
        (saved : Option ℕ) → InOrder (record { committed_offset = 0; leases = []; saved = saved }) 0
    empty-InOrder saved = record {
      behind = omega arith;
      unique = tt;
      leased = λ o low high. absurd (omega arith);
      free = λ o high. refl;
      done = λ o low. refl;
      counted = omega arith;
    }
