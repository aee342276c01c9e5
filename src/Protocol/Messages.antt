-- ===== src/Protocol/Messages.antt =====
-- pkg/protocol/protocol.go: the nine messages, each under its kind, which is on the wire as the type of
-- the frame around it.
use tumbleweed.Base.{ℕ, ◌≡◌, refl, List, Result, ok, err, ◌>>=◌}
use tumbleweed.Protocol.ProduceRequest.{
  ProduceRequest, marshal_produce_request, unmarshal_produce_request,
}
use tumbleweed.Protocol.ProduceRequest.Laws.{ProduceRequestFits, unmarshal-marshal_produce_request}
use tumbleweed.Protocol.ProduceResponse.{
  ProduceResponse, marshal_produce_response, unmarshal_produce_response,
}
use tumbleweed.Protocol.ProduceResponse.Laws.{
  ProduceResponseFits, unmarshal-marshal_produce_response,
}
use tumbleweed.Protocol.FetchRequest.{FetchRequest, marshal_fetch_request, unmarshal_fetch_request}
use tumbleweed.Protocol.FetchRequest.Laws.{FetchRequestFits, unmarshal-marshal_fetch_request}
use tumbleweed.Protocol.FetchResponse.{
  FetchResponse, marshal_fetch_response, unmarshal_fetch_response,
}
use tumbleweed.Protocol.FetchResponse.Decode.{FetchResponseFits}
use tumbleweed.Protocol.FetchResponse.Laws.{unmarshal-marshal_fetch_response}
use tumbleweed.Protocol.AckRequest.{AckRequest, marshal_ack_request, unmarshal_ack_request}
use tumbleweed.Protocol.AckRequest.Laws.{AckRequestFits, unmarshal-marshal_ack_request}
use tumbleweed.Protocol.NackRequest.{NackRequest, marshal_nack_request, unmarshal_nack_request}
use tumbleweed.Protocol.NackRequest.Laws.{NackRequestFits, unmarshal-marshal_nack_request}
use tumbleweed.Protocol.CreateTopicRequest.{
  CreateTopicRequest, marshal_create_topic_request, unmarshal_create_topic_request,
}
use tumbleweed.Protocol.CreateTopicRequest.Laws.{
  CreateTopicRequestFits, unmarshal-marshal_create_topic_request,
}
use tumbleweed.Protocol.ErrorResponse.{
  ErrorResponse, marshal_error_response, unmarshal_error_response,
}
use tumbleweed.Protocol.ErrorResponse.Laws.{ErrorResponseFits, unmarshal-marshal_error_response}
use tumbleweed.Protocol.ListTopicsResponse.{
  ListTopicsResponse, marshal_list_topics_response, unmarshal_list_topics_response,
}
use tumbleweed.Protocol.ListTopicsResponse.Decode.{ListTopicsResponseFits}
use tumbleweed.Protocol.ListTopicsResponse.Laws.{unmarshal-marshal_list_topics_response}

pub data Kind : Type 0 where
  produces is_produced fetches is_fetched acks nacks creates fails lists : Kind

pub data Body : Type 0 where
  produce_request : ProduceRequest → Body
  produce_response : ProduceResponse → Body
  fetch_request : FetchRequest → Body
  fetch_response : FetchResponse → Body
  ack_request : AckRequest → Body
  nack_request : NackRequest → Body
  create_topic_request : CreateTopicRequest → Body
  error_response : ErrorResponse → Body
  list_topics_response : ListTopicsResponse → Body

abbrev pub kind_of : Body → Kind
kind_of (produce_request r) = produces
kind_of (produce_response r) = is_produced
kind_of (fetch_request r) = fetches
kind_of (fetch_response r) = is_fetched
kind_of (ack_request r) = acks
kind_of (nack_request r) = nacks
kind_of (create_topic_request r) = creates
kind_of (error_response r) = fails
kind_of (list_topics_response r) = lists

-- the lengths and numbers of the message fit their fields
abbrev pub BodyFits : Body → Type 0
BodyFits (produce_request r) = ProduceRequestFits r
BodyFits (produce_response r) = ProduceResponseFits r
BodyFits (fetch_request r) = FetchRequestFits r
BodyFits (fetch_response r) = FetchResponseFits r
BodyFits (ack_request r) = AckRequestFits r
BodyFits (nack_request r) = NackRequestFits r
BodyFits (create_topic_request r) = CreateTopicRequestFits r
BodyFits (error_response r) = ErrorResponseFits r
BodyFits (list_topics_response r) = ListTopicsResponseFits r

abbrev pub marshal_body : Body → Result (List ℕ)
marshal_body (produce_request r) = marshal_produce_request r
marshal_body (produce_response r) = marshal_produce_response r
marshal_body (fetch_request r) = marshal_fetch_request r
marshal_body (fetch_response r) = marshal_fetch_response r
marshal_body (ack_request r) = marshal_ack_request r
marshal_body (nack_request r) = marshal_nack_request r
marshal_body (create_topic_request r) = marshal_create_topic_request r
marshal_body (error_response r) = marshal_error_response r
marshal_body (list_topics_response r) = marshal_list_topics_response r

abbrev unmarshals : {M : Type 0} → (List ℕ → Result M) → (M → Body) → List ℕ → Result Body
unmarshals unmarshal body b = unmarshal b >>= λ m. ok (body m)

abbrev pub unmarshal_body : Kind → List ℕ → Result Body
unmarshal_body produces = unmarshals unmarshal_produce_request produce_request
unmarshal_body is_produced = unmarshals unmarshal_produce_response produce_response
unmarshal_body fetches = unmarshals unmarshal_fetch_request fetch_request
unmarshal_body is_fetched = unmarshals unmarshal_fetch_response fetch_response
unmarshal_body acks = unmarshals unmarshal_ack_request ack_request
unmarshal_body nacks = unmarshals unmarshal_nack_request nack_request
unmarshal_body creates = unmarshals unmarshal_create_topic_request create_topic_request
unmarshal_body fails = unmarshals unmarshal_error_response error_response
unmarshal_body lists = unmarshals unmarshal_list_topics_response list_topics_response

round_trip :
    {M : Type 0} (marshal : Result (List ℕ)) (unmarshal : List ℕ → Result M) (body : M → Body)
    (m : M)
    → (marshal >>= unmarshal) ≡ ok m
    → (marshal >>= unmarshals unmarshal body) ≡ ok (body m)
round_trip (ok b) unmarshal body m e = rw e refl
round_trip (err problem) unmarshal body m e = absurd (cc)

-- Each of the nine messages of the protocol, with lengths and numbers that fit their fields, comes back
-- unchanged when its decoder reads what its encoder wrote.
pub unmarshal-marshal_body :
    (m : Body) → BodyFits m → (marshal_body m >>= unmarshal_body (kind_of m)) ≡ ok m
unmarshal-marshal_body (produce_request r) h =
    round_trip (marshal_produce_request r) unmarshal_produce_request produce_request r
      (unmarshal-marshal_produce_request r h)
unmarshal-marshal_body (produce_response r) h =
    round_trip (marshal_produce_response r) unmarshal_produce_response produce_response r
      (unmarshal-marshal_produce_response r h)
unmarshal-marshal_body (fetch_request r) h =
    round_trip (marshal_fetch_request r) unmarshal_fetch_request fetch_request r
      (unmarshal-marshal_fetch_request r h)
unmarshal-marshal_body (fetch_response r) h =
    round_trip (marshal_fetch_response r) unmarshal_fetch_response fetch_response r
      (unmarshal-marshal_fetch_response r h)
unmarshal-marshal_body (ack_request r) h =
    round_trip (marshal_ack_request r) unmarshal_ack_request ack_request r
      (unmarshal-marshal_ack_request r h)
unmarshal-marshal_body (nack_request r) h =
    round_trip (marshal_nack_request r) unmarshal_nack_request nack_request r
      (unmarshal-marshal_nack_request r h)
unmarshal-marshal_body (create_topic_request r) h =
    round_trip (marshal_create_topic_request r) unmarshal_create_topic_request create_topic_request
      r (unmarshal-marshal_create_topic_request r h)
unmarshal-marshal_body (error_response r) h =
    round_trip (marshal_error_response r) unmarshal_error_response error_response r
      (unmarshal-marshal_error_response r h)
unmarshal-marshal_body (list_topics_response r) h =
    round_trip (marshal_list_topics_response r) unmarshal_list_topics_response list_topics_response
      r (unmarshal-marshal_list_topics_response r h)
