-- ===== src/Broker/Topics.antt =====
-- pkg/broker/coordinator.go: topics and groups as the broker keeps them, and how they are created and
-- loaded. A pointer to a topic or a group stands for its entry in the map: an operation that changes
-- one puts it back. `sent` is what went out on the channels of waiting fetches, the latest last.
use tumbleweed.Base.{
  ℕ, ◌*◌, Option, none, some, List, [], ◌∷◌, Bool, true, false, Result, ok, err, blocked, ◌>>=◌,
  if◌then◌else◌,
}
use tumbleweed.Protocol.FetchResponse.{Message}
use tumbleweed.Wal.{Wal}
use tumbleweed.Wal.SegmentFile.{Segment, Disk}
use tumbleweed.Wal.Recovery.{RecoveryCall, new_wal}
use tumbleweed.Broker.Names.{Name, find, put, names, strip_suffix}
use tumbleweed.Broker.Group.{Group, PendingFetch, persist_state}

pub record Topic : Type 0 where
  pub wal : Wal
  pub groups : List (Name × Group)
  pub pending_fetches : List (Name × List PendingFetch)

pub record BrokerState : Type 0 where
  pub topics : List (Name × Topic)
  pub sent : List (ℕ × List Message)

-- config.Config; durations are nanoseconds.
pub record Config : Type 0 where
  pub data_dir : Name
  pub bind_addr : Name
  pub sync_every_write : Bool
  pub sync_interval : ℕ
  pub max_segment_bytes : ℕ
  pub default_lease_timeout : ℕ
  pub max_redeliveries : ℕ
  pub lease_check_interval : ℕ

-- DefaultConfig, with "data" and ":8765"
abbrev pub default_config : Config
default_config = record {
  data_dir = 100 ∷ 97 ∷ 116 ∷ 97 ∷ [];
  bind_addr = 58 ∷ 56 ∷ 55 ∷ 54 ∷ 53 ∷ [];
  sync_every_write = true;
  sync_interval = 200 * 1_000_000;
  max_segment_bytes = 64 * 1024 * 1024;
  default_lease_timeout = 30 * 1_000_000_000;
  max_redeliveries = 5;
  lease_check_interval = 200 * 1_000_000;
}

-- An entry of a groups directory: its name, whether it is a directory, and the committed offset in it,
-- if the file can be opened and decoded.
pub record GroupFile : Type 0 where
  pub name : Name
  pub is_dir : Bool
  pub state : Option ℕ

-- What a call of the broker finds around it: the files of each topic, the calls of the system that
-- succeed, and the clock.
pub record World : Type 0 where
  pub config : Config
  pub crc : List ℕ → ℕ
  pub segment_files : Name → List Segment
  pub group_files : Name → Result (List GroupFile)
  pub recovery : RecoveryCall → Bool
  pub disk : Disk
  pub save_ok : Bool
  pub now : ℕ
  pub timestamp : ℕ

-- ".state"
abbrev pub state_suffix : Name
state_suffix = 46 ∷ 115 ∷ 116 ∷ 97 ∷ 116 ∷ 101 ∷ []

abbrev pub loaded_group : ℕ → Group
loaded_group offset = record { committed_offset = offset; leases = []; saved = some offset }

abbrev pub load_group : List (Name × Group) → Bool → Option Name → Option ℕ → List (Name × Group)
load_group groups false (some name) (some offset) = put name (loaded_group offset) groups
load_group groups _ _ _ = groups

unfoldable pub load_groups : List GroupFile → List (Name × Group) → List (Name × Group)
load_groups [] groups = groups
load_groups (f ∷ files) groups =
    load_groups files (load_group groups f.is_dir (strip_suffix state_suffix f.name) f.state)

abbrev pub open_topic : World → Name → Result Topic
open_topic w name = do
  wal ←
      new_wal w.recovery w.config.sync_every_write w.config.max_segment_bytes (w.segment_files name)
  files ← w.group_files name
  ok (record { wal = wal; groups = load_groups files []; pending_fetches = [] })

abbrev pub add_topic : BrokerState → Name → Result Topic → BrokerState × Result Topic
add_topic b name (err e) = (b, err e)
add_topic b name (ok t) = (record b { topics = put name t b.topics }, ok t)

-- CreateTopic: the topic that is there, or one whose files are opened
unfoldable pub create_topic : World → BrokerState → Name → BrokerState × Result Topic
create_topic w b name = elim (find name b.topics) [
  | some t ↦ (b, ok t)
  | none ↦ add_topic b name (open_topic w name)
]

abbrev pub load_rest :
    (BrokerState → BrokerState × Result (Unit {0}))
    → BrokerState × Result Topic
    → BrokerState × Result (Unit {0})
load_rest next (b, err e) = (b, err e)
load_rest next (b, ok t) = next b

-- the loop of loadTopics, over the names of the directories
unfoldable pub load_topics : World → BrokerState → List Name → BrokerState × Result (Unit {0})
load_topics w b [] = (b, ok tt)
load_topics w b (name ∷ rest) = load_rest (λ b'. load_topics w b' rest) (create_topic w b name)

abbrev pub new_group : World → Group
new_group w = persist_state w.save_ok (record { committed_offset = 0; leases = []; saved = none })

-- getOrCreateGroup, once the topic's mutex is locked
abbrev pub found_group : World → Topic → Name → Option Group → Topic × Group
found_group w t name (some g) = (t, g)
found_group w t name none = (record t { groups = put name (new_group w) t.groups }, new_group w)

-- getOrCreateGroup locks the topic's mutex: where its caller holds it already, it waits for ever.
unfoldable pub get_or_create_group : World → Bool → Topic → Name → Result (Topic × Group)
get_or_create_group w held t name =
    if held then err blocked else ok (found_group w t name (find name t.groups))

-- ListTopics
abbrev pub list_topics : BrokerState → List Name
list_topics b = names b.topics

-- NewBroker: `dirs` are the names of the directories of the topics, if they can be read.
unfoldable pub new_broker : World → Result (List Name) → Result BrokerState
new_broker w dirs = do
  found ← dirs
  let (b, r) = load_topics w (record { topics = []; sent = [] }) found
  _ ← r
  ok b
