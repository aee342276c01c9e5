-- ===== src/Client/EndToEnd.antt =====
-- cmd/tumbleweed/main.go hands the broker of pkg/broker/coordinator.go to the server. Here the calls of
-- one connection are all the calls there are: a Fetch that waits runs into its timeout.
use tumbleweed.Base.{
  ℕ, ◌+◌, ◌^◌, ◌≤◌, ◌<◌, ◌≡◌, refl, sym, some, ◌++◌, ap, ◌∙◌, subst, ◌⊎◌, inl, inr, List, [], ◌∷◌,
  length, Error, Result, ok, err, io, broker_error, arith,
}
use tumbleweed.Protocol.FetchRequest.{FetchRequest}
use tumbleweed.Protocol.FetchResponse.{Message}
use tumbleweed.Protocol.Frame.{type_req_produce}
use tumbleweed.Protocol.ProduceRequest.Laws.{produce_request_layout, ProduceRequestFits}
use tumbleweed.Wal.Encoding.Layout.{Entry}
use tumbleweed.Bytes.Buffer.{sizes}
use tumbleweed.Wal.Log.{Logs}
use tumbleweed.Broker.Names.{Name, find}
use tumbleweed.Broker.Topics.{Topic, BrokerState, World, create_topic, list_topics}
use tumbleweed.Broker.Produce
use tumbleweed.Broker.Produce.Laws.{Writable, IsQuiet, entry_of, produce-Produces}
use tumbleweed.Broker.Requests.{Fetched, answered, waiting, fetch, fetch_timeout, ack, nack}
use tumbleweed.Server.{Broker, internal_code, err_code_internal_error}
use tumbleweed.Client.{Client, produce}
use tumbleweed.Client.Served.{answers, Sendable, relayed, Relayable}
use tumbleweed.Client.States.{after, produce-after}
use tumbleweed.Client.Calls.{offset_layout, produce-relayed}

abbrev pub fetch_alone :
    FetchRequest → BrokerState × Result Fetched → BrokerState × Result (List Message)
fetch_alone r (b, err e) = (b, err e)
fetch_alone r (b, ok (answered msgs)) = (b, ok msgs)
fetch_alone r (b, ok (waiting pf)) = fetch_timeout b r.topic r.group pf

abbrev pub without_topic : BrokerState × Result Topic → BrokerState × Result (Unit {0})
without_topic (b, err e) = (b, err e)
without_topic (b, ok t) = (b, ok tt)

-- the broker's operations, as the server calls them
abbrev pub operations : World → Broker BrokerState
operations w = record {
  produce = Produce.produce w;
  fetch = λ b r. fetch_alone r (fetch w b r 0);
  ack = ack w;
  nack = nack w;
  create_topic = λ b name. without_topic (create_topic w b name);
  list_topics = list_topics;
}

-- Where a call takes a value, and where it has an offset or fails to write.
offset_or_io :
    (text : Error → List ℕ) (room n : ℕ) (r : Result ℕ)
    → n < 2 ^ 64
    → 17 ≤ room
    → length (text io) < 2 ^ 16
    → 13 + length (text io) ≤ room
    → (r ≡ ok n) ⊎ (r ≡ err io)
    → Relayable (λ o. o < 2 ^ 64) offset_layout internal_code text room r
offset_or_io text room n r wide space short fits (inl e) =
    let size : length (offset_layout n) ≡ 8 = omega sizes in
    let s = λ (r : Result ℕ). Relayable (λ o. o < 2 ^ 64) offset_layout internal_code text room r in
    subst s (sym e) (wide, omega (arith, size), omega (arith, size))
offset_or_io text room n r wide space short fits (inr e) =
    let s = λ (r : Result ℕ). Relayable (λ o. o < 2 ^ 64) offset_layout internal_code text room r in
    subst s (sym e) (omega arith, short, fits, refl)

module _ (w : World) (b : BrokerState) (name : Name) (key value : List ℕ) (t : Topic)
    (es : List Entry) (h : Writable w b name t es (entry_of w key value))
    (quiet : IsQuiet t.pending_fetches) (text : Error → List ℕ) (unknown_text : List ℕ)
    (fuel room : ℕ) (c : Client) where
  -- what the client's Produce leaves and returns, and the broker behind it
  abbrev pub called : Client × Result ℕ
  called = produce (answers text (operations w) unknown_text fuel room b) c name key value

  abbrev pub broker_after : Client → BrokerState
  broker_after d = after text (operations w) unknown_text fuel room b d.out.sent

  -- A client on a new connection to the server of this broker, with a topic that is there, whose log is
  -- in order and open, with a positive limit of a segment and room for the message, with a checksum of
  -- 32 bits, where no fetch waits and whichever system calls fail; the request's fields fit, and the
  -- connections take the request and the response. Then Produce returns the next offset, and in the
  -- state in which handleConnection leaves the broker after what the client sent, the topic's log holds
  -- the old messages and then the new one; or Produce returns the broker's I/O error as an internal
  -- error, and the log there holds the old messages, or those and the new one.
  pub produce-end_to_end :
      ProduceRequestFits (record { topic = name; key = key; value = value })
      → Sendable c type_req_produce
          (produce_request_layout (record { topic = name; key = key; value = value }) [])
      → t.wal.next_offset < 2 ^ 64
      → 17 ≤ room
      → length (text io) < 2 ^ 16
      → 13 + length (text io) ≤ room
      → (t' : Topic) × (find name (broker_after called.0).topics ≡ some t')
        × (((called.1 ≡ ok t.wal.next_offset)
              × Logs w.crc t'.wal 0 (es ++ (entry_of w key value ∷ [])))
            ⊎ ((called.1 ≡ err (broker_error err_code_internal_error (text io)))
                × (Logs w.crc t'.wal 0 es
                    ⊎ Logs w.crc t'.wal 0 (es ++ (entry_of w key value ∷ [])))))
  produce-end_to_end fits sendable wide space short long =
      let (t', there, _, _, _, ends) = produce-Produces w b name key value t es h quiet in
      let outcome = (Produce.produce w b name key value).1 in
      let either : (outcome ≡ ok t.wal.next_offset) ⊎ (outcome ≡ err io) = elim ends [
        | inl e ↦ inl e.0
        | inr e ↦ inr e.0
      ] in
      let same : called.1 ≡ relayed internal_code text outcome =
        produce-relayed text (operations w) unknown_text fuel room b c name key value fits sendable
          (offset_or_io text room t.wal.next_offset outcome wide space short long either) in
      let left : broker_after called.0 ≡ (Produce.produce w b name key value).0 =
        produce-after text (operations w) unknown_text fuel room b
          (answers text (operations w) unknown_text fuel room b) c name key value fits sendable in
      (
        t',
        ap (λ (s : BrokerState). find name s.topics) left ∙ there,
        elim ends [
          | inl (e, logs) ↦ inl (same ∙ ap (relayed internal_code text) e, logs)
          | inr (e, logs) ↦ inr (same ∙ ap (relayed internal_code text) e, logs)
        ],
      )
