-- ===== src/Wal/Closing.antt =====
-- pkg/wal/wal.go: Close, Flush, and a round of flushLoop. Close makes every call, whichever fail;
-- `succeeds` says which do, for the files of each segment. That a Read of a closed file fails is not
-- modelled.
mod Tests
use tumbleweed.Base.{
  ℕ, ◌≡◌, refl, Option, none, some, List, [], ◌∷◌, Bool, true, false, if◌then◌else◌, if_cases,
  Result, ok, err, io, wal_closed,
}
use tumbleweed.Wal.SegmentFile.{Segment, Disk}
use tumbleweed.Wal.{Wal, segments, append}

-- The system calls of Close and Flush.
pub data ClosingCall : Type 0 where
  sync_log sync_idx close_log close_idx : ClosingCall

module _ (succeeds : ClosingCall → Segment → Bool) where
  -- `if err := …; err != nil { lastErr = err }`
  abbrev close_step : ClosingCall → Segment → Result (Unit {0}) → Result (Unit {0})
  close_step c seg last = if succeeds c seg then last else err io

  abbrev close_segment : Segment → Result (Unit {0}) → Result (Unit {0})
  close_segment seg last =
      close_step close_idx seg
        (close_step close_log seg (close_step sync_idx seg (close_step sync_log seg last)))

  unfoldable pub close_segments : List Segment → Result (Unit {0}) → Result (Unit {0})
  close_segments [] last = last
  close_segments (seg ∷ segs) last = close_segments segs (close_segment seg last)

  unfoldable pub close : Wal → Wal × Result (Unit {0})
  close w =
      if w.closed
      then (w, ok tt)
      else (record w { closed = true }, close_segments (segments w) (ok tt))

  unfoldable pub flush : Wal → Result (Unit {0})
  flush w =
      if succeeds sync_log w.active
      then (if succeeds sync_idx w.active then ok tt else err io)
      else err io

  -- one round of flushLoop, which ends once the log is closed
  unfoldable pub flush_round : Wal → Option (Result (Unit {0}))
  flush_round w = if w.closed then none else some (flush w)

  -- What a log refuses once it is closed.
  pub record Refuses (crc : List ℕ → ℕ) (w : Wal) : Type 0 where
    pub no_append :
        (disk : Disk) (timestamp : ℕ) (key value : List ℕ)
        → append crc disk timestamp w key value ≡ (w, err wal_closed)
    pub no_close : close w ≡ (w, ok tt)
    pub no_flush : flush_round w ≡ none

  refuses : (crc : List ℕ → ℕ) (w : Wal) → w.closed ≡ true → Refuses crc w
  unfolding append close flush_round
  refuses crc w e = record {
    no_append = λ disk timestamp key value. rw e refl;
    no_close = rw e refl;
    no_flush = rw e refl;
  }

  -- Whichever system calls of Close fail, and whether or not the log was closed before: afterwards every
  -- Append is refused, with the log as it was, a further Close succeeds and does nothing, and flushLoop ends at its
  -- next round.
  pub close-Refuses : (crc : List ℕ → ℕ) (w : Wal) → Refuses crc (close w).0
  unfolding close
  close-Refuses crc w =
      if_cases (λ (p : Wal × Result (Unit {0})). Refuses crc p.0) w.closed _ _
        (λ e. refuses crc w e) (λ _. refuses crc (record w { closed = true }) refl)
