-- ===== src/Server/Lifecycle.antt =====
-- pkg/server/server.go: Start, Stop and the connections between them, as the steps of one state. Start
-- runs once; Stop may be called at any time and again. The listener and the wait group are those of the
-- packages net and sync: an Accept takes a connection only while the listener is open, and may fail at
-- any time; Wait returns when the count is 0.
pub mod Shutdown
mod Tests
use tumbleweed.Base.{ℕ, suc, ◌+◌, ◌≡◌, Bool, true, false, ◌==◌, if◌then◌else◌, Result, ok, err, io}

-- Where Start is: before it listens, before `s.listener = l`, at Accept, with a connection that it has
-- not counted yet, behind a failed Accept, or at its end.
pub data StartAt : Type 0 where
  not_started bound accepting accepted checking : StartAt
  returned : Result (Unit {0}) → StartAt

-- Where the first call of Stop is: before it is made, before it closes the listener, at Wait, or done.
pub data StopAt : Type 0 where
  not_called closing waiting stopped : StopAt

-- The server: `published` is whether s.listener is set, `listening` whether the listener is open, and
-- `active` the count of the wait group. `served` counts the connections that were ever handed to
-- handleConnection, and `turns` the steps of Start.
pub record Lifecycle : Type 0 where
  pub start : StartAt
  pub stop : StopAt
  pub published : Bool
  pub listening : Bool
  pub closed : Bool
  pub active : ℕ
  pub served : ℕ
  pub turns : ℕ

abbrev pub initial : Lifecycle
initial = record {
  start = not_started;
  stop = not_called;
  published = false;
  listening = false;
  closed = false;
  active = 0;
  served = 0;
  turns = 0;
}

-- behind a failed Accept: the end, or the next round
abbrev pub check_closed : Bool → StartAt
check_closed closed = if closed then returned (ok tt) else accepting

pub data Step : Lifecycle → Lifecycle → Type 0 where
  listens :
      (s : Lifecycle)
      → s.start ≡ not_started
      → Step s (record s { start = bound; listening = true; turns = suc s.turns })
  fails_to_listen :
      (s : Lifecycle)
      → s.start ≡ not_started
      → Step s (record s { start = returned (err io); turns = suc s.turns })
  publishes :
      (s : Lifecycle)
      → s.start ≡ bound
      → Step s (record s { start = accepting; published = true; turns = suc s.turns })
  accepts :
      (s : Lifecycle)
      → s.start ≡ accepting
      → s.listening ≡ true
      → Step s (record s { start = accepted; turns = suc s.turns })
  fails_to_accept :
      (s : Lifecycle)
      → s.start ≡ accepting
      → Step s (record s { start = checking; turns = suc s.turns })
  adds :
      (s : Lifecycle)
      → s.start ≡ accepted
      → Step s (record s {
        start = accepting;
        active = suc s.active;
        served = suc s.served;
        turns = suc s.turns;
      })
  reads_closed :
      (s : Lifecycle)
      → s.start ≡ checking
      → Step s (record s { start = check_closed s.closed; turns = suc s.turns })
  -- a connection ends
  finishes : (s : Lifecycle) (n : ℕ) → s.active ≡ suc n → Step s (record s { active = n })
  -- the first call of Stop, and a later one, which returns at once
  stops : (s : Lifecycle) → s.closed ≡ false → Step s (record s { closed = true; stop = closing })
  stops_again : (s : Lifecycle) → s.closed ≡ true → Step s s
  closes :
      (s : Lifecycle)
      → s.stop ≡ closing
      → Step s (record s { stop = waiting; listening = if s.published then false else s.listening })
  waited : (s : Lifecycle) → s.stop ≡ waiting → s.active ≡ 0 → Step s (record s { stop = stopped })

pub data Reach (s : Lifecycle) : Lifecycle → Type 0 where
  here : Reach s s
  next : {t u : Lifecycle} → Reach s t → Step t u → Reach s u
