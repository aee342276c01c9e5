-- ===== src/Broker/Sound/Stored.antt =====
-- pkg/broker/coordinator.go: a disk in order, from which the broker can open every topic.
use tumbleweed.Base.{
  ℕ, ◌+◌, ◌^◌, ◌≤◌, ◌<◌, ◌≡◌, refl, sym, subst, ◌⊎◌, inl, inr, List, [], ◌∷◌, length, All, false,
  Result, ok, bind-ok, arith,
}
use tumbleweed.Wal.Encoding.Layout.{Entry}
use tumbleweed.Wal.SegmentFile.{Segment}
use tumbleweed.Wal.SegmentFile.Holds.{records, positions, log_size}
use tumbleweed.Wal.{Wal, open_segment}
use tumbleweed.Wal.Log.{Logs}
use tumbleweed.Wal.Recovery.{new_wal, open_all, sort_bases, recover_next_offset}
use tumbleweed.Wal.Recovery.Steps.{healthy}
use tumbleweed.Wal.Recovery.Reopened.{Files, new_wal-Logs}
use tumbleweed.Broker.Names.{Name}
use tumbleweed.Broker.Topics.{
  Topic, World, GroupFile, BrokerState, load_groups, open_topic, new_broker,
}
use tumbleweed.Broker.Sound.{SoundTopic, SoundBroker}
use tumbleweed.Broker.Sound.Appends.{Serves}
use tumbleweed.Broker.Sound.Runs.{
  Request, RequestFits, serve, cost_of_run, run, Served, run-SoundBroker_from_new,
}
use tumbleweed.Broker.Sound.Opens.{Behind, opened-SoundTopic}

-- The files of a topic: none, or segments in order from offset 0 on, with the torn tails of `IsTorn`;
-- and state files that are not behind the end of the log.
pub record TopicFiles (n : ℕ) (w : World) (name : Name) : Type 0 where
  pub entries : List Entry
  pub dir :
      ((w.segment_files name ≡ []) × (entries ≡ []))
      ⊎ ((seg : Segment) × (segs : List Segment) × (w.segment_files name ≡ seg ∷ segs)
          × Files w.crc 0 (seg ∷ segs) entries)
  pub offsets : length entries + n < 2 ^ 60
  pub size : log_size entries ≤ 2 ^ 62
  pub states :
      (files : List GroupFile) → w.group_files name ≡ ok files → All (Behind (length entries)) files

pub record Stored (n : ℕ) (w : World) : Type 0 where
  pub crc_fits : (bytes : List ℕ) → w.crc bytes < 2 ^ 32
  pub clock : w.timestamp < 2 ^ 64
  pub whole : w.recovery ≡ healthy
  pub some_limit : 0 < w.config.max_segment_bytes
  pub limit : w.config.max_segment_bytes ≤ 2 ^ 62
  pub topics : (name : Name) → TopicFiles n w name

-- the log of a topic that is new
abbrev fresh_wal : World → Wal
fresh_wal w = record {
  sync_every_write = w.config.sync_every_write;
  max_segment_bytes = w.config.max_segment_bytes;
  sealed = [];
  active = record { base_offset = 0; log = []; index = []; size = 0; idx_size = 0 };
  next_offset = 0;
  closed = false;
}

fresh_wal-Logs : (w : World) → Logs w.crc (fresh_wal w) 0 []
unfolding positions log_size records
fresh_wal-Logs w = record {
  chain = (
    [],
    [],
    refl,
    refl,
    record {
      spare = [];
      log_is = refl;
      size_is = refl;
      idx_spare = [];
      index_is = refl;
      idx_size_is = refl;
      entries_fit = tt;
      offsets_fit = omega arith;
      log_fits = omega arith;
    },
    refl,
  );
  next_is = refl;
}

module _ (n : ℕ) (w : World) (name : Name) (whole : w.recovery ≡ healthy) where
  -- What NewWAL opens.
  abbrev Opens : List Entry → Type 0
  Opens es =
      (wal : Wal) × (new_wal w.recovery w.config.sync_every_write w.config.max_segment_bytes
          (w.segment_files name)
        ≡ ok wal)
      × Logs w.crc wal 0 es
      × (wal.max_segment_bytes ≡ w.config.max_segment_bytes)

  new_wal-Opens : (h : TopicFiles n w name) → Opens h.entries
  unfolding new_wal open_all sort_bases recover_next_offset open_segment
  new_wal-Opens h = elim h.dir [
    | inl (none_there, no_entries) ↦ (
      fresh_wal w,
      rw (whole, none_there) refl,
      subst (Logs w.crc (fresh_wal w) 0) (sym no_entries) (fresh_wal-Logs w),
      refl,
    )
    | inr (seg, segs, there, files) ↦
        let (wal, opened, logs, _, same) =
          new_wal-Logs w.crc w.config.sync_every_write w.config.max_segment_bytes 0 seg segs
            h.entries files in
        (wal, rw (whole, there) opened, logs, same)
  ]

opened_topic-SoundTopic :
    (n : ℕ) (w : World) (name : Name) (t : Topic)
    → Stored n w
    → open_topic w name ≡ ok t
    → SoundTopic w.crc n t
opened_topic-SoundTopic n w name t h e =
    let f = h.topics name in
    let (wal, opened, logs, same) = new_wal-Opens n w name h.whole f in
    let (wal', opened', more) =
      bind-ok
        (new_wal w.recovery w.config.sync_every_write w.config.max_segment_bytes
          (w.segment_files name))
        _ t e in
    let (files, there, last) = bind-ok (w.group_files name) _ t more in
    let one : wal' ≡ wal = cc in
    let topic = λ (x : Wal).
      ◌≡◌ {A = Topic} (record { wal = x; groups = load_groups files []; pending_fetches = [] }) t in
    let is = subst topic one (ok_value _ t last) in
    subst (SoundTopic w.crc n) is (
      opened-SoundTopic w.crc n w.config.max_segment_bytes wal f.entries files logs same
        h.some_limit h.limit f.offsets f.size (f.states files there))
  where
    ok_value : (a b : Topic) → ok a ≡ ok b → a ≡ b
    ok_value a b e = cc

-- A broker can rely on a disk in order.
pub Stored-Serves : (n : ℕ) (w : World) → Stored n w → Serves n w
Stored-Serves n w h = record {
  crc_fits = h.crc_fits;
  clock = h.clock;
  opens = λ name t e. opened_topic-SoundTopic n w name t h e;
}

-- Every request fits, and its call finds a disk in order.
abbrev pub StoredRun : (List ℕ → ℕ) → ℕ → List (World × Request) → BrokerState → Type 0
StoredRun crc n [] b = Unit {0}
StoredRun crc n ((w, r) ∷ more) b =
    (w.crc ≡ crc)
    × RequestFits r
    × Stored (cost_of_run ((w, r) ∷ more) b + n) w
    × StoredRun crc n more (serve w r b)

StoredRun-Served :
    (crc : List ℕ → ℕ) (n : ℕ) (rs : List (World × Request)) (b : BrokerState)
    → StoredRun crc n rs b
    → Served crc n rs b
StoredRun-Served crc n [] b h = tt
StoredRun-Served crc n ((w, r) ∷ more) b (same, fits, stored, rest) = (
  same,
  fits,
  Stored-Serves (cost_of_run ((w, r) ∷ more) b + n) w stored,
  StoredRun-Served crc n more (serve w r b) rest,
)

-- A broker that NewBroker returned, and then any calls on it, one after the other, where the calls of
-- Append and of the state files may fail. The checksum is the same for all and has 32 bits, the clock
-- has 64, the lengths in the requests fit their fields, and the limit of a segment is positive and
-- 2 ^ 62 at most. Each call finds on disk, for every topic, no files; or segments in order, of records
-- whose sizes do not wrap in uint32, with any bytes in the indexes, behind whose records is a tail that
-- is shorter than a header of 25 bytes or does not begin as a record: so not a record that is cut off
-- behind its whole header. The state files are not behind the end of the log, every call of NewWAL on
-- the files succeeds, and 2 ^ 60 offsets and 2 ^ 62 bytes are more than there are and, the offsets, than
-- the calls use up. Then every topic's log is in order, and each of its groups hands out the offsets of
-- that log without a gap, not past its end, with a state file that is not ahead.
pub run-SoundBroker_from_disk :
    (n : ℕ) (w : World) (dirs : Result (List Name)) (b : BrokerState) (rs : List (World × Request))
    → Stored (cost_of_run rs b + n) w
    → new_broker w dirs ≡ ok b
    → StoredRun w.crc n rs b
    → SoundBroker w.crc n (run rs b)
run-SoundBroker_from_disk n w dirs b rs stored made served =
    run-SoundBroker_from_new n w dirs b rs (Stored-Serves (cost_of_run rs b + n) w stored) made
      (StoredRun-Served w.crc n rs b served)
