-- ===== src/Client.antt =====
-- pkg/client/client.go: execute and the calls over it. The connection takes `room` more bytes before it
-- breaks; `peer` says which bytes arrive once the request has been sent, and `incoming` has those that
-- were not read yet. A response's request id is not looked at.
pub mod Served
pub mod States
pub mod Calls
pub mod Address
pub mod EndToEnd
mod Tests
use tumbleweed.Base.{
  ℕ, ◌+◌, ◌%◌, ◌^◌, List, [], ◌∷◌, ◌++◌, length, not, ◌==◌, if◌then◌else◌, Error, Result, ok, err,
  broker_error, unexpected_type, ◌>>=◌,
}
use tumbleweed.Protocol.Frame.{
  Frame, Writer, read_frame, write_frame, type_req_ping, type_req_produce, type_req_fetch,
  type_req_ack, type_req_nack, type_req_create_topic, type_req_list_topics, type_resp_pong,
  type_resp_produce, type_resp_fetch, type_resp_ack, type_resp_nack, type_resp_create_topic,
  type_resp_list_topics, type_resp_error,
}
use tumbleweed.Protocol.ProduceRequest.{ProduceRequest, marshal_produce_request}
use tumbleweed.Protocol.ProduceResponse.{unmarshal_produce_response}
use tumbleweed.Protocol.FetchRequest.{FetchRequest, marshal_fetch_request}
use tumbleweed.Protocol.FetchResponse.{Message, unmarshal_fetch_response}
use tumbleweed.Protocol.AckRequest.{AckRequest, marshal_ack_request}
use tumbleweed.Protocol.NackRequest.{NackRequest, marshal_nack_request}
use tumbleweed.Protocol.CreateTopicRequest.{CreateTopicRequest, marshal_create_topic_request}
use tumbleweed.Protocol.ErrorResponse.{unmarshal_error_response}
use tumbleweed.Protocol.ListTopicsResponse.{unmarshal_list_topics_response}

pub record Client : Type 0 where
  pub req_id : ℕ
  pub out : Writer
  pub incoming : List ℕ

abbrev pub check_response : Frame → Result Frame
check_response resp =
    if resp.type == type_resp_error
    then (unmarshal_error_response resp.body >>= λ e. err (broker_error e.code e.message))
    else ok resp

-- execute, behind the read of the response
abbrev pub receive : Client → Result (Frame × List ℕ) → Client × Result Frame
receive c (err e) = (c, err e)
receive c (ok (resp, rest)) = (record c { incoming = rest }, check_response resp)

abbrev pub request_frame : Client → ℕ → List ℕ → Frame
request_frame c type body = record {
  type = type;
  req_id = (c.req_id + 1) % 2 ^ 32;
  size = length body % 2 ^ 32;
  body = body;
}

module _ (peer : List ℕ → List ℕ) where
  -- execute, behind the write of the request
  abbrev pub await_response : Client → Writer × Result (Unit {0}) → Client × Result Frame
  await_response c (out, err e) = (record c { out = out }, err e)
  await_response c (out, ok _) =
      let c' = record c { out = out; incoming = c.incoming ++ peer out.sent } in
      receive c' (read_frame c'.incoming)

  unfoldable pub execute : Client → ℕ → List ℕ → Client × Result Frame
  execute c type body =
      await_response (record c { req_id = (c.req_id + 1) % 2 ^ 32 })
        (write_frame c.out (request_frame c type body))

  -- a call, with the type of its response and what it reads from the body
  abbrev pub expect :
      {A : Type 0} → ℕ → (List ℕ → Result A) → Client × Result Frame → Client × Result A
  expect type decode (c, err e) = (c, err e)
  expect type decode (c, ok resp) =
      (c, if not (resp.type == type) then err (unexpected_type resp.type) else decode resp.body)

  abbrev pub request :
      {A : Type 0} → Client → ℕ → Result (List ℕ) → ℕ → (List ℕ → Result A) → Client × Result A
  request c type (err e) resp_type decode = (c, err e)
  request c type (ok body) resp_type decode = expect resp_type decode (execute c type body)

  abbrev no_body : List ℕ → Result (Unit {0})
  no_body body = ok tt

  -- without the latency
  unfoldable pub ping : Client → Client × Result (Unit {0})
  ping c = request c type_req_ping (ok []) type_resp_pong no_body

  unfoldable pub create_topic : Client → List ℕ → Client × Result (Unit {0})
  create_topic c topic =
      request c type_req_create_topic (marshal_create_topic_request (record { topic = topic }))
        type_resp_create_topic no_body

  unfoldable pub produce : Client → List ℕ → List ℕ → List ℕ → Client × Result ℕ
  produce c topic key value =
      request c type_req_produce
        (marshal_produce_request (record { topic = topic; key = key; value = value }))
        type_resp_produce (λ body. unmarshal_produce_response body >>= λ r. ok r.offset)

  unfoldable pub fetch : Client → FetchRequest → Client × Result (List Message)
  fetch c req =
      request c type_req_fetch (marshal_fetch_request req) type_resp_fetch
        (λ body. unmarshal_fetch_response body >>= λ r. ok r.messages)

  unfoldable pub ack : Client → List ℕ → List ℕ → ℕ → Client × Result (Unit {0})
  ack c topic group offset =
      request c type_req_ack
        (marshal_ack_request (record { topic = topic; group = group; offset = offset }))
        type_resp_ack no_body

  unfoldable pub nack : Client → List ℕ → List ℕ → ℕ → Client × Result (Unit {0})
  nack c topic group offset =
      request c type_req_nack
        (marshal_nack_request (record { topic = topic; group = group; offset = offset }))
        type_resp_nack no_body

  unfoldable pub list_topics : Client → Client × Result (List (List ℕ))
  list_topics c =
      request c type_req_list_topics (ok []) type_resp_list_topics
        (λ body. unmarshal_list_topics_response body >>= λ r. ok r.topics)
