-- ===== src/Broker/History/Tests.antt =====
-- A consumer group that is given a record, acknowledges it and is loaded again.
use tumbleweed.Base.{
  ℕ, ◌≡◌, refl, sym, ap, none, some, List, [], ◌∷◌, true, ◌||◌, ◌&&◌, ltb, ◌==◌, Result, ok, err,
  io, arith,
}
use tumbleweed.Wal.Encoding.{Record}
use tumbleweed.Broker.Leases.{lookup, insert, delete}
use tumbleweed.Broker.Group.{ack_group, slide_window, slide_loop, persist_state}
use tumbleweed.Broker.Sort.{sort_offsets, sort_loop}
use tumbleweed.Broker.Fetch.{
  FetchCall, expired_offsets, next_expected, deliver_expired, deliver_new, fetch_available,
  message_of, new_lease,
}
use tumbleweed.Broker.Topics.{loaded_group}
use tumbleweed.Broker.History.{
  State, Surroundings, Step, appended, acknowledged, delivered, restarted, Reach, here, next,
  first_state, is_exhausted,
}
use tumbleweed.Broker.History.Safety.{IsSafe, first_state-IsSafe, Reach-IsSafe}

abbrev record_at : ℕ → Record
record_at o = record {
  magic = 66;
  offset = o;
  timestamp = 100;
  key = [];
  value = 7 ∷ [];
  checksum = 0;
}

abbrev read_any : ℕ → Result Record
read_any o = ok (record_at o)

abbrev no_dlq : Unit {0} → List ℕ → List ℕ → Unit {0} × Result ℕ
no_dlq b key value = (b, err io)

calm : Surroundings read_any no_dlq
calm = record {
  calm_read = λ o. (some (record_at o), refl);
  calm_produce = λ b key value. (none, refl);
  read_offset =
      λ o rec e. let same : record_at o ≡ rec = cc in sym (ap (λ (r : Record). r.offset) same);
}

abbrev a_call : FetchCall
a_call = record {
  consumer_id = 100 ∷ [];
  max_count = 1;
  ack_timeout = 30;
  now = 50;
  max_redeliveries = 5;
  save_ok = true;
}

abbrev before : State
before = record (first_state 1) { log_end = 2 }

abbrev fetched : State
fetched = record before {
  group = record before.group { leases = (0, new_lease a_call 0) ∷ [] };
  answered = λ o. is_exhausted a_call (lookup o before.group.leases) || before.answered o;
}

abbrev settled : State
settled = record fetched {
  group = record { committed_offset = 1; leases = []; saved = some 1 };
  answered = λ o. 0 == o || fetched.answered o;
}

abbrev loaded : State
loaded = record {
  group = loaded_group 1;
  log_end = 1;
  answered = λ o. ltb o 1 && settled.answered o;
}

fetch-Step : Step before fetched
unfolding fetch_available deliver_expired deliver_new next_expected expired_offsets sort_offsets
    sort_loop insert
fetch-Step =
    delivered before read_any no_dlq a_call tt (tt, fetched.group, message_of (record_at 0) ∷ [])
      calm (omega arith) refl

ack-Step : Step fetched settled
unfolding ack_group slide_window slide_loop persist_state lookup insert delete
ack-Step = acknowledged fetched true 0 refl

history : Reach (first_state 1) loaded
history =
    next (next (next (next here (appended (first_state 1) (omega arith))) fetch-Step) ack-Step)
      (restarted settled 1 1 refl (omega arith) (omega arith))

Reach-IsSafe_example : IsSafe loaded
Reach-IsSafe_example = Reach-IsSafe (first_state-IsSafe 1 (omega arith)) history
