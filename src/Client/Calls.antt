-- ===== src/Client/Calls.antt =====
-- pkg/client/client.go with pkg/server/server.go: what a call of the client returns is what the broker's
-- operation returns.
use tumbleweed.Base.{
  ℕ, ◌+◌, ◌%◌, ◌^◌, ◌<◌, ◌≡◌, refl, ap, ◌∙◌, List, [], Error, Result, ok, err, broker_error,
  topic_not_found, lease_not_found, ◌>>=◌, arith,
}
use tumbleweed.Protocol.Frame.{
  type_req_produce, type_req_fetch, type_req_ack, type_req_nack, type_resp_produce, type_resp_fetch,
  type_resp_ack, type_resp_nack,
}
use tumbleweed.Protocol.ProduceRequest.{ProduceRequest}
use tumbleweed.Protocol.ProduceRequest.Laws.{
  produce_request_layout, ProduceRequestFits, marshal_produce_request-layout,
  unmarshal_produce_request-layout,
}
use tumbleweed.Protocol.ProduceResponse.{marshal_produce_response, unmarshal_produce_response}
use tumbleweed.Protocol.ProduceResponse.Laws.{
  produce_response_layout, marshal_produce_response-layout, unmarshal_produce_response-layout,
}
use tumbleweed.Protocol.FetchRequest.{FetchRequest}
use tumbleweed.Protocol.FetchRequest.Laws.{
  fetch_request_layout, FetchRequestFits, marshal_fetch_request-layout,
  unmarshal_fetch_request-layout,
}
use tumbleweed.Protocol.FetchResponse.{Message, marshal_fetch_response, unmarshal_fetch_response}
use tumbleweed.Protocol.FetchResponse.Encode.{fetch_response_layout, marshal_fetch_response-layout}
use tumbleweed.Protocol.FetchResponse.Decode.{FetchResponseFits, unmarshal_fetch_response-layout}
use tumbleweed.Protocol.AckRequest.{AckRequest}
use tumbleweed.Protocol.AckRequest.Laws.{
  ack_request_layout, AckRequestFits, marshal_ack_request-layout, unmarshal_ack_request-layout,
}
use tumbleweed.Protocol.NackRequest.{NackRequest}
use tumbleweed.Protocol.NackRequest.Laws.{
  nack_request_layout, NackRequestFits, marshal_nack_request-layout, unmarshal_nack_request-layout,
}
use tumbleweed.Server.{
  Broker, frame_of, fetch_code, lease_code, internal_code, process_frame, process_produce,
  process_fetch, process_ack, process_nack,
}
use tumbleweed.Client.{Client, produce, fetch, ack, nack}
use tumbleweed.Client.Served.{answers, Sendable, relayed, Relayable, expect-relayed}

-- a response without a body
abbrev pub empty_layout : Unit {0} → List ℕ
empty_layout _ = []

abbrev pub offset_layout : ℕ → List ℕ
offset_layout o = produce_response_layout (record { offset = o }) []

abbrev pub messages_layout : List Message → List ℕ
messages_layout msgs = fetch_response_layout (record { messages = msgs }) []

-- The codes of the errors, as clients know them: 1001 where a topic was not found, 1005 where a lease
-- was not, or not any more, and 1004 for every other error.
abbrev pub topic_error : Error → ℕ
topic_error topic_not_found = 1001
topic_error _ = 1004

abbrev pub lease_error : Error → ℕ
lease_error topic_not_found = 1001
lease_error lease_not_found = 1005
lease_error _ = 1004

fetch_code-topic_error : (e : Error) → fetch_code e ≡ topic_error e
fetch_code-topic_error topic_not_found = refl
fetch_code-topic_error _ = refl

lease_code-lease_error : (e : Error) → lease_code e ≡ lease_error e
lease_code-lease_error topic_not_found = refl
lease_code-lease_error lease_not_found = refl
lease_code-lease_error _ = refl

-- Codes that are the same for every error.
module _ {A : Type 0} (code known : Error → ℕ) (same : (e : Error) → code e ≡ known e)
    (text : Error → List ℕ) where
  same_codes-relayed : (r : Result A) → relayed code text r ≡ relayed known text r
  same_codes-relayed (ok a) = refl
  same_codes-relayed (err e) = ap (λ n. err (broker_error n (text e))) (same e)

  same_codes-Relayable :
      (Fits : A → Type 0) (layout : A → List ℕ) (room : ℕ) (r : Result A)
      → Relayable Fits layout known text room r
      → Relayable Fits layout code text room r
  same_codes-Relayable Fits layout room (ok a) h = h
  same_codes-Relayable Fits layout room (err e) (fits, short, space, returned) =
      (omega (arith, fits, same e), short, space, returned)

module _ {S : Type 0} (text : Error → List ℕ) (b : Broker S) (unknown_text : List ℕ) (fuel room : ℕ)
    (s : S) (c : Client) where
  pub produce-relayed :
      (topic key value : List ℕ)
      → ProduceRequestFits (record { topic = topic; key = key; value = value })
      → Sendable c type_req_produce
          (produce_request_layout (record { topic = topic; key = key; value = value }) [])
      → Relayable
          (λ o. o < 2 ^ 64)
          offset_layout
          internal_code
          text
          room
          (b.produce s topic key value).1
      → (produce (answers text b unknown_text fuel room s) c topic key value).1
        ≡ relayed internal_code text (b.produce s topic key value).1
  unfolding produce process_frame process_produce
  produce-relayed topic key value fits sendable relayable =
      let r : ProduceRequest = record { topic = topic; key = key; value = value } in
      rw (marshal_produce_request-layout r) (
        expect-relayed text b unknown_text fuel room s (λ o. o < 2 ^ 64) offset_layout
          (λ body. unmarshal_produce_response body >>= λ r. ok r.offset)
          (λ o h.
            rw
              (unmarshal_produce_response-layout (record { offset = o }) []
                (record { offset_fits = h }))
              refl)
          internal_code type_req_produce type_resp_produce (omega arith) refl c
          (produce_request_layout r []) (b.produce s topic key value)
          (λ o. marshal_produce_response (record { offset = o }) >>= λ body.
            ok (frame_of type_resp_produce ((c.req_id + 1) % 2 ^ 32) body))
          (λ o. rw (marshal_produce_response-layout (record { offset = o })) refl) sendable
          relayable (rw (unmarshal_produce_request-layout r [] fits) refl))

  -- A client on a new connection to a server, where the request's fields fit and the connections take
  -- the request and the response, and the broker's Fetch returns: Fetch returns the messages that the
  -- broker's Fetch returns, or its error: with code 1001 that the topic was not found, and with 1004 any
  -- other.
  pub fetch-relayed :
      (r : FetchRequest)
      → FetchRequestFits r
      → Sendable c type_req_fetch (fetch_request_layout r [])
      → Relayable
          (λ msgs. FetchResponseFits (record { messages = msgs }))
          messages_layout
          topic_error
          text
          room
          (b.fetch s r).1
      → (fetch (answers text b unknown_text fuel room s) c r).1
        ≡ relayed topic_error text (b.fetch s r).1
  unfolding fetch process_frame process_fetch
  fetch-relayed r fits sendable relayable =
      let known =
        same_codes-relayed {A = List Message} fetch_code topic_error fetch_code-topic_error text
          (b.fetch s r).1 in
      (rw (marshal_fetch_request-layout r) (
        expect-relayed text b unknown_text fuel room s
          (λ msgs. FetchResponseFits (record { messages = msgs })) messages_layout
          (λ body. unmarshal_fetch_response body >>= λ r. ok r.messages)
          (λ msgs h. rw (unmarshal_fetch_response-layout (record { messages = msgs }) [] h) refl)
          fetch_code type_req_fetch type_resp_fetch (omega arith) refl c (fetch_request_layout r [])
          (b.fetch s r)
          (λ msgs. marshal_fetch_response (record { messages = msgs }) >>= λ body.
            ok (frame_of type_resp_fetch ((c.req_id + 1) % 2 ^ 32) body))
          (λ msgs. rw (marshal_fetch_response-layout (record { messages = msgs })) refl) sendable
          (same_codes-Relayable fetch_code topic_error fetch_code-topic_error text
            (λ msgs. FetchResponseFits (record { messages = msgs })) messages_layout room
            (b.fetch s r).1 relayable)
          (rw (unmarshal_fetch_request-layout r [] fits) refl)))
      ∙ known

  -- A client on a new connection to a server, where the request's fields fit and the connections take
  -- the request and the response, and the broker's Ack returns: Ack succeeds when the broker's Ack does,
  -- and else returns its error: with code 1005 that the lease was not found, with 1001 that the topic was
  -- not, and with 1004 any other.
  pub ack-relayed :
      (topic group : List ℕ) (offset : ℕ)
      → AckRequestFits (record { topic = topic; group = group; offset = offset })
      → Sendable c type_req_ack
          (ack_request_layout (record { topic = topic; group = group; offset = offset }) [])
      → Relayable (λ _. Unit {0}) empty_layout lease_error text room (b.ack s topic group offset).1
      → (ack (answers text b unknown_text fuel room s) c topic group offset).1
        ≡ relayed lease_error text (b.ack s topic group offset).1
  unfolding ack process_frame process_ack
  ack-relayed topic group offset fits sendable relayable =
      let known =
        same_codes-relayed {A = Unit {0}} lease_code lease_error lease_code-lease_error text
          (b.ack s topic group offset).1 in
      (let r : AckRequest = record { topic = topic; group = group; offset = offset } in
        rw (marshal_ack_request-layout r) (
          expect-relayed text b unknown_text fuel room s (λ _. Unit {0}) empty_layout _
            (λ _ h. refl) lease_code type_req_ack type_resp_ack (omega arith) refl c
            (ack_request_layout r []) (b.ack s topic group offset) _ (λ _. refl) sendable
            (same_codes-Relayable lease_code lease_error lease_code-lease_error text (λ _. Unit {0})
              empty_layout room (b.ack s topic group offset).1 relayable)
            (rw (unmarshal_ack_request-layout r [] fits) refl)))
      ∙ known

  -- A client on a new connection to a server, where the request's fields fit and the connections take
  -- the request and the response, and the broker's Nack returns: Nack succeeds when the broker's Nack does,
  -- and else returns its error: with code 1005 that the lease was not found, with 1001 that the topic was
  -- not, and with 1004 any other.
  pub nack-relayed :
      (topic group : List ℕ) (offset : ℕ)
      → NackRequestFits (record { topic = topic; group = group; offset = offset })
      → Sendable c type_req_nack
          (nack_request_layout (record { topic = topic; group = group; offset = offset }) [])
      → Relayable (λ _. Unit {0}) empty_layout lease_error text room (b.nack s topic group offset).1
      → (nack (answers text b unknown_text fuel room s) c topic group offset).1
        ≡ relayed lease_error text (b.nack s topic group offset).1
  unfolding nack process_frame process_nack
  nack-relayed topic group offset fits sendable relayable =
      let known =
        same_codes-relayed {A = Unit {0}} lease_code lease_error lease_code-lease_error text
          (b.nack s topic group offset).1 in
      (let r : NackRequest = record { topic = topic; group = group; offset = offset } in
        rw (marshal_nack_request-layout r) (
          expect-relayed text b unknown_text fuel room s (λ _. Unit {0}) empty_layout _
            (λ _ h. refl) lease_code type_req_nack type_resp_nack (omega arith) refl c
            (nack_request_layout r []) (b.nack s topic group offset) _ (λ _. refl) sendable
            (same_codes-Relayable lease_code lease_error lease_code-lease_error text (λ _. Unit {0})
              empty_layout room (b.nack s topic group offset).1 relayable)
            (rw (unmarshal_nack_request-layout r [] fits) refl)))
      ∙ known
