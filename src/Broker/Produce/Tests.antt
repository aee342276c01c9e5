-- ===== src/Broker/Produce/Tests.antt =====
-- The theorems on Produce at a topic with two records.
use tumbleweed.Base.{◌≡◌, ◌⊎◌, refl, [], ◌∷◌, err, io, blocked, arith}
use tumbleweed.Wal.Samples.{sum32_fits, first, second}
use tumbleweed.Broker.Samples.{
  a_log, a_log-Logs, a_world, orders, quiet_topic, broker_with, message_has-Room, quiet-Writable,
}
use tumbleweed.Broker.Names.{find, same_name}
use tumbleweed.Broker.Group.{PendingFetch}
use tumbleweed.Broker.Topics.{Topic}
use tumbleweed.Broker.Produce.{produce}
use tumbleweed.Broker.Produce.Laws.{
  Writable, Produces, entry_of, produce-IsAwaited, produce-Produces,
}

abbrev a_fetch : PendingFetch
a_fetch = record {
  consumer_id = 100 ∷ [];
  max_messages = 1;
  ack_timeout = 30;
  chan = 1;
  expiry = 0;
}

abbrev awaited_topic : Topic
awaited_topic = record { wal = a_log; groups = []; pending_fetches = (98 ∷ [], a_fetch ∷ []) ∷ [] }

awaited-Writable :
    Writable a_world
      (broker_with awaited_topic)
      orders
      awaited_topic
      (first ∷ second ∷ [])
      (entry_of a_world [] (8 ∷ []))
unfolding find same_name
awaited-Writable = record {
  there = refl;
  logs = a_log-Logs;
  opened = refl;
  segment_size = omega arith;
  room = message_has-Room;
  crc_fits = sum32_fits;
}

produce-IsAwaited_example :
    ((produce a_world (broker_with awaited_topic) orders [] (8 ∷ [])).1 ≡ err io)
    ⊎ ((produce a_world (broker_with awaited_topic) orders [] (8 ∷ [])).1 ≡ err blocked)
produce-IsAwaited_example =
    produce-IsAwaited a_world (broker_with awaited_topic) orders [] (8 ∷ []) awaited_topic
      (first ∷ second ∷ []) awaited-Writable tt

produce-Produces_example :
    Produces a_world
      (broker_with quiet_topic)
      orders
      quiet_topic
      (first ∷ second ∷ [])
      (entry_of a_world [] (8 ∷ []))
      quiet-Writable
      (produce a_world (broker_with quiet_topic) orders [] (8 ∷ []))
produce-Produces_example =
    produce-Produces a_world (broker_with quiet_topic) orders [] (8 ∷ []) quiet_topic
      (first ∷ second ∷ []) quiet-Writable tt
