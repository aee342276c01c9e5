-- ===== src/Broker/Closing/Tests.antt =====
-- The broker of one topic is closed on a disk where every call fails.
use tumbleweed.Base.{refl, false}
use tumbleweed.Broker.Samples.{quiet_topic, broker_with}
use tumbleweed.Broker.Closing.{Running, Stopped, close_broker, close_broker-Stopped}

abbrev one_topic : Running
one_topic = record { broker = broker_with quiet_topic; closed = false }

close_broker-Stopped_example :
    Stopped
      (λ name c seg. false)
      (broker_with quiet_topic)
      (close_broker (λ name c seg. false) one_topic).0
close_broker-Stopped_example = close_broker-Stopped (λ name c seg. false) one_topic refl
