-- ===== src/Server.antt =====
-- pkg/server/server.go: processFrame and makeErrorFrame. The broker is a record of the operations that
-- the server calls, each on the broker's state. An error's text, `err.Error()`, is a parameter. A
-- frame that the server makes has length 0, which WriteFrame ignores.
pub mod Laws
pub mod Connection
pub mod Ends
pub mod Lifecycle
mod Tests
use tumbleweed.Base.{
  ℕ, List, [], ◌∷◌, Error, panics, blocked, Bool, true, false, Result, ok, err, topic_not_found,
  lease_not_found, ◌>>=◌, ◌==◌, if◌then◌else◌, Option, some, none,
}
use tumbleweed.Protocol.Frame.{
  Frame, type_req_ping, type_req_produce, type_req_fetch, type_req_ack, type_req_nack,
  type_req_create_topic, type_req_list_topics, type_resp_pong, type_resp_produce, type_resp_fetch,
  type_resp_ack, type_resp_nack, type_resp_create_topic, type_resp_list_topics, type_resp_error,
}
use tumbleweed.Protocol.ProduceRequest.{ProduceRequest, unmarshal_produce_request}
use tumbleweed.Protocol.ProduceResponse.{marshal_produce_response}
use tumbleweed.Protocol.FetchRequest.{FetchRequest, unmarshal_fetch_request}
use tumbleweed.Protocol.FetchResponse.{Message, marshal_fetch_response}
use tumbleweed.Protocol.AckRequest.{AckRequest, unmarshal_ack_request}
use tumbleweed.Protocol.NackRequest.{NackRequest, unmarshal_nack_request}
use tumbleweed.Protocol.CreateTopicRequest.{CreateTopicRequest, unmarshal_create_topic_request}
use tumbleweed.Protocol.ErrorResponse.{marshal_error_response}
use tumbleweed.Protocol.ListTopicsResponse.{marshal_list_topics_response}

-- Error codes
abbrev pub err_code_unknown : ℕ
err_code_unknown = 1000

abbrev pub err_code_topic_not_found : ℕ
err_code_topic_not_found = 1001

abbrev pub err_code_topic_exists : ℕ
err_code_topic_exists = 1002

abbrev pub err_code_invalid_payload : ℕ
err_code_invalid_payload = 1003

abbrev pub err_code_internal_error : ℕ
err_code_internal_error = 1004

abbrev pub err_code_lease_expired : ℕ
err_code_lease_expired = 1005

-- The operations of the broker that the server calls.
pub record Broker (S : Type 0) : Type 0 where
  pub produce : S → List ℕ → List ℕ → List ℕ → S × Result ℕ
  pub fetch : S → FetchRequest → S × Result (List Message)
  pub ack : S → List ℕ → List ℕ → ℕ → S × Result (Unit {0})
  pub nack : S → List ℕ → List ℕ → ℕ → S × Result (Unit {0})
  pub create_topic : S → List ℕ → S × Result (Unit {0})
  pub list_topics : S → List (List ℕ)

-- whether a call that ends in this way returns an error; a panic and a call that blocks do not
abbrev pub is_returned : Error → Bool
is_returned panics = false
is_returned blocked = false
is_returned _ = true

abbrev pub fetch_code : Error → ℕ
fetch_code topic_not_found = err_code_topic_not_found
fetch_code _ = err_code_internal_error

abbrev pub lease_code : Error → ℕ
lease_code lease_not_found = err_code_lease_expired
lease_code topic_not_found = err_code_topic_not_found
lease_code _ = err_code_internal_error

abbrev pub internal_code : Error → ℕ
internal_code _ = err_code_internal_error

abbrev pub frame_of : ℕ → ℕ → List ℕ → Frame
frame_of type req_id body = record { type = type; req_id = req_id; size = 0; body = body }

unfoldable pub make_error_frame : ℕ → ℕ → List ℕ → Result Frame
make_error_frame req_id code message = do
  body ← marshal_error_response (record { code = code; message = message })
  ok (frame_of type_resp_error req_id body)

module _ {S : Type 0} (text : Error → List ℕ) (b : Broker S) where
  -- `if err != nil { return makeErrorFrame(…) }` behind a decoder
  abbrev pub decoded : {A : Type 0} → S → ℕ → Result A → (A → S × Result Frame) → S × Result Frame
  decoded s req_id (ok req) call = call req
  decoded s req_id (err e) call = (
    s,
    if is_returned e then make_error_frame req_id err_code_invalid_payload (text e) else err e,
  )

  -- and behind a call of the broker
  abbrev pub replied :
      {A : Type 0} → (Error → ℕ) → ℕ → S × Result A → (A → Result Frame) → S × Result Frame
  replied code req_id (s, ok a) reply = (s, reply a)
  replied code req_id (s, err e) reply =
      (s, if is_returned e then make_error_frame req_id (code e) (text e) else err e)

  unfoldable pub process_produce : S → Frame → S × Result Frame
  process_produce s f = decoded s f.req_id (unmarshal_produce_request f.body) λ req.
      replied internal_code f.req_id (b.produce s req.topic req.key req.value) λ offset. do
        body ← marshal_produce_response (record { offset = offset })
        ok (frame_of type_resp_produce f.req_id body)

  unfoldable pub process_fetch : S → Frame → S × Result Frame
  process_fetch s f = decoded s f.req_id (unmarshal_fetch_request f.body) λ req.
      replied fetch_code f.req_id (b.fetch s req) λ msgs. do
        body ← marshal_fetch_response (record { messages = msgs })
        ok (frame_of type_resp_fetch f.req_id body)

  unfoldable pub process_ack : S → Frame → S × Result Frame
  process_ack s f = decoded s f.req_id (unmarshal_ack_request f.body) λ req.
      replied lease_code f.req_id (b.ack s req.topic req.group req.offset)
        λ _. ok (frame_of type_resp_ack f.req_id [])

  unfoldable pub process_nack : S → Frame → S × Result Frame
  process_nack s f = decoded s f.req_id (unmarshal_nack_request f.body) λ req.
      replied lease_code f.req_id (b.nack s req.topic req.group req.offset)
        λ _. ok (frame_of type_resp_nack f.req_id [])

  unfoldable pub process_create_topic : S → Frame → S × Result Frame
  process_create_topic s f = decoded s f.req_id (unmarshal_create_topic_request f.body) λ req.
      replied internal_code f.req_id (b.create_topic s req.topic)
        λ _. ok (frame_of type_resp_create_topic f.req_id [])

  unfoldable pub process_list_topics : S → Frame → S × Result Frame
  process_list_topics s f = (
    s,
    (do
      body ← marshal_list_topics_response (record { topics = b.list_topics s })
      ok (frame_of type_resp_list_topics f.req_id body)),
  )

  -- the text "unknown request type"
  unfoldable pub process_frame : List ℕ → S → Frame → S × Result Frame
  process_frame unknown_text s f =
      if f.type == type_req_ping
      then (s, ok (frame_of type_resp_pong f.req_id []))
      else if f.type == type_req_produce
      then process_produce s f
      else if f.type == type_req_fetch
      then process_fetch s f
      else if f.type == type_req_ack
      then process_ack s f
      else if f.type == type_req_nack
      then process_nack s f
      else if f.type == type_req_create_topic
      then process_create_topic s f
      else if f.type == type_req_list_topics
      then process_list_topics s f
      else (s, make_error_frame f.req_id err_code_unknown unknown_text)
