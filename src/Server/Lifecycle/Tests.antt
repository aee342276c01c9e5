-- ===== src/Server/Lifecycle/Tests.antt =====
-- Two ways in which Start and Stop can meet.
use tumbleweed.Base.{◌+◌, ◌≤◌, refl, true, false}
use tumbleweed.Server.Lifecycle.{
  Lifecycle, initial, bound, closing, accepting, accepted, waiting, stopped, listens, publishes,
  adds, waited, stops, closes, Reach, here, next,
}
use tumbleweed.Server.Lifecycle.Shutdown.{Moves, Reach-IsShutDown}

-- a connection in hand, not yet counted, while Stop waits
abbrev in_between : Lifecycle
in_between = record {
  start = accepted;
  stop = waiting;
  published = true;
  listening = false;
  closed = true;
  active = 0;
  served = 0;
  turns = 3;
}

-- Wait has seen no connection, and then the connection is served.
abbrev served_late : Lifecycle
served_late = record {
  start = accepting;
  stop = stopped;
  published = true;
  listening = false;
  closed = true;
  active = 1;
  served = 1;
  turns = 4;
}

late : Reach in_between served_late
late =
    next (next here (waited in_between refl refl))
      (adds (record in_between { stop = stopped }) refl)

Reach-IsShutDown_example : Moves served_late × (4 ≤ 3 + 3) × (1 ≤ 0 + 1)
Reach-IsShutDown_example =
    Reach-IsShutDown in_between served_late (record { closed = refl; deaf = refl; looping = refl })
      late

-- Stop is done before Start has set s.listener: the server accepts connections for all that.
abbrev missed : Lifecycle
missed = record {
  start = accepting;
  stop = stopped;
  published = true;
  listening = true;
  closed = true;
  active = 0;
  served = 0;
  turns = 2;
}

is_missed : Reach initial missed
is_missed =
    let called : Lifecycle = record initial { closed = true; stop = closing } in
    let closed : Lifecycle = record called { stop = waiting } in
    let over : Lifecycle = record closed { stop = stopped } in
    let bound_late : Lifecycle = record over { start = bound; listening = true; turns = 1 } in
    next
      (next
        (next (next (next here (stops initial refl)) (closes called refl))
          (waited closed refl refl))
        (listens over refl))
      (publishes bound_late refl)
