-- ===== src/Server/Tests.antt =====
-- The rounds of the server at a broker that counts its calls.
use tumbleweed.Base.{ℕ, ◌+◌, List, [], ◌∷◌, Error, ok, err, topic_not_found, lease_not_found}
use tumbleweed.Protocol.Frame.{Writer}
use tumbleweed.Server.{Broker}
use tumbleweed.Server.Connection.{End, handle_connection}

abbrev counting : Broker ℕ
counting = record {
  produce = λ s topic key value. (s + 1, ok s);
  fetch = λ s r. (s + 1, err topic_not_found);
  ack = λ s topic group offset. (s + 1, ok tt);
  nack = λ s topic group offset. (s + 1, err lease_not_found);
  create_topic = λ s topic. (s + 1, ok tt);
  list_topics = λ s. [];
}

abbrev no_text : Error → List ℕ
no_text e = 33 ∷ []

-- a Ping, and the beginning of a Produce
abbrev some_bytes : List ℕ
some_bytes = 1 ∷ 0 ∷ 0 ∷ 0 ∷ 12 ∷ 0 ∷ 0 ∷ 0 ∷ 0 ∷ 2 ∷ 3 ∷ []

abbrev connection : ℕ → ℕ × Writer × End
connection fuel =
    handle_connection no_text counting (63 ∷ []) fuel 5 (record { sent = []; room = 100 })
      some_bytes
