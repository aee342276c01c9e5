-- ===== src/Broker/Sound/Opens.antt =====
-- pkg/broker/coordinator.go: CreateTopic on the files of a topic.
use tumbleweed.Base.{
  ℕ, ◌+◌, ◌^◌, ◌≤◌, ◌<◌, ◌≡◌, refl, sym, ap, subst, Option, none, some, List, [], ◌∷◌, length, Bool,
  true, false, All, ok, arith,
}
use tumbleweed.Wal.Encoding.Layout.{Entry}
use tumbleweed.Wal.SegmentFile.{Segment}
use tumbleweed.Wal.SegmentFile.Holds.{log_size, log_size-append}
use tumbleweed.Wal.{Wal}
use tumbleweed.Wal.Log.{Chain-Last, Logs}
use tumbleweed.Wal.Recovery.{new_wal}
use tumbleweed.Wal.Recovery.Steps.{healthy}
use tumbleweed.Wal.Recovery.Reopened.{Files, new_wal-Logs}
use tumbleweed.Broker.Names.{Name, find, strip_suffix}
use tumbleweed.Broker.Group.{Group}
use tumbleweed.Broker.History.Safety.{loaded-InOrder}
use tumbleweed.Broker.Topics.{
  Topic, World, GroupFile, state_suffix, loaded_group, load_group, load_groups, open_topic,
}
use tumbleweed.Broker.Sound.{Every, put-Every, SoundGroup, SoundTopic}

-- The active segment is not larger than all the records.
active-le :
    (crc : List ℕ → ℕ) (wal : Wal) (start : ℕ) (es : List Entry)
    → Logs crc wal start es
    → wal.active.size ≤ log_size es
active-le crc wal start es h =
    let l = Chain-Last crc start wal.sealed wal.active es h.chain in
    omega (arith, l.holds.size_is, ap log_size l.split, log_size-append l.early l.late)

-- A state file does not name an offset behind the end of the log.
abbrev pub Behind : ℕ → GroupFile → Type 0
Behind log_end f = (n : ℕ) → f.state ≡ some n → n ≤ log_end

loaded-SoundGroup : (n log_end : ℕ) → n ≤ log_end → SoundGroup log_end (loaded_group n)
loaded-SoundGroup n log_end le = record {
  until = n;
  order = loaded-InOrder n;
  within = le;
  saved = λ m e. let same : n ≡ m = cc in omega (arith, same);
}

load_group-Every :
    (log_end : ℕ) (groups : List (Name × Group)) (is_dir : Bool) (name : Option Name)
    (state : Option ℕ)
    → Every (SoundGroup log_end) groups
    → ((n : ℕ) → state ≡ some n → n ≤ log_end)
    → Every (SoundGroup log_end) (load_group groups is_dir name state)
load_group-Every log_end groups false (some name) (some n) h le =
    put-Every (SoundGroup log_end) name (loaded_group n) groups h
      (loaded-SoundGroup n log_end (le n refl))
load_group-Every log_end groups false (some name) none h le = h
load_group-Every log_end groups false none state h le = h
load_group-Every log_end groups true name state h le = h

load_groups-Every :
    (log_end : ℕ) (files : List GroupFile) (groups : List (Name × Group))
    → Every (SoundGroup log_end) groups
    → All (Behind log_end) files
    → Every (SoundGroup log_end) (load_groups files groups)
unfolding load_groups
load_groups-Every log_end [] groups h behind = h
load_groups-Every log_end (f ∷ files) groups h (b, behind) =
    load_groups-Every log_end files
      (load_group groups f.is_dir (strip_suffix state_suffix f.name) f.state)
      (load_group-Every log_end groups f.is_dir (strip_suffix state_suffix f.name) f.state h b)
      behind

-- A topic with this log and these state files.
pub opened-SoundTopic :
    (crc : List ℕ → ℕ) (n max : ℕ) (wal : Wal) (es : List Entry) (files : List GroupFile)
    → Logs crc wal 0 es
    → wal.max_segment_bytes ≡ max
    → 0 < max
    → max ≤ 2 ^ 62
    → length es + n < 2 ^ 60
    → log_size es ≤ 2 ^ 62
    → All (Behind (length es)) files
    → SoundTopic crc n (record { wal = wal; groups = load_groups files []; pending_fetches = [] })
unfolding find
opened-SoundTopic crc n max wal es files h same some_limit limit offsets size behind = record {
  entries = es;
  logs = h;
  space = record {
    offsets = omega (arith, h.next_is, offsets);
    some_limit = omega (arith, same, some_limit);
    limit = omega (arith, same, limit);
    active = omega (arith, active-le crc wal 0 es h, size);
  };
  groups =
      subst (λ m. Every (SoundGroup m) (load_groups files [])) (sym h.next_is)
        (load_groups-Every (0 + length es) files [] (λ k g at. absurd (cc))
          (subst (λ m. All (Behind m) files) (zero_plus (length es)) behind));
}
  where
    zero_plus : (m : ℕ) → m ≡ 0 + m
    zero_plus m = omega arith

-- On a disk where every call succeeds: the segments' files of a topic are in order from offset 0 on,
-- records whose sizes do not wrap in uint32, and behind them a tail that is shorter than a header of 25
-- bytes or does not begin as a record; so a record that is cut off behind its whole header is left out.
-- The indexes are any bytes. The state files do not name an offset behind the end of the log; the limit
-- of a segment is positive and 2 ^ 62 at most; 2 ^ 60 offsets and 2 ^ 62 bytes are more than the log has
-- and, the offsets, than `n` further messages use up. Then CreateTopic opens a topic that is sound: its
-- log is in order with the entries of the files, and its groups hand out the offsets of that log.
pub open_topic-SoundTopic :
    (w : World) (name : Name) (n : ℕ) (seg : Segment) (segs : List Segment) (es : List Entry)
    (files : List GroupFile)
    → w.recovery ≡ healthy
    → w.segment_files name ≡ seg ∷ segs
    → w.group_files name ≡ ok files
    → Files w.crc 0 (seg ∷ segs) es
    → 0 < w.config.max_segment_bytes
    → w.config.max_segment_bytes ≤ 2 ^ 62
    → length es + n < 2 ^ 60
    → log_size es ≤ 2 ^ 62
    → All (Behind (length es)) files
    → (t : Topic) × (open_topic w name ≡ ok t) × SoundTopic w.crc n t
open_topic-SoundTopic w name n seg segs es files whole there states h some_limit limit offsets size
      behind =
    let sync = w.config.sync_every_write in
    let max = w.config.max_segment_bytes in
    let (wal, opened, logs, _, same) = new_wal-Logs w.crc sync max 0 seg segs es h in
    let opened' : new_wal w.recovery sync max (w.segment_files name) ≡ ok wal =
      rw (whole, there) opened in
    (
      record { wal = wal; groups = load_groups files []; pending_fetches = [] },
      rw (opened', states) refl,
      opened-SoundTopic w.crc n max wal es files logs same some_limit limit offsets size behind,
    )
