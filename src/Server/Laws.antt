-- ===== src/Server/Laws.antt =====
-- pkg/server/server.go: every request that reaches the server is answered.
mod Tests
use tumbleweed.Base.{
  ℕ, ◌+◌, ◌≡◌, refl, sym, subst, ◌⊎◌, inl, inr, List, [], All, true, if_cases, ◌==◌, Error, Result,
  ok, err, malformed, ◌>>=◌, arith,
}
use tumbleweed.Bytes.{IsByte}
use tumbleweed.Bytes.Ensures.{Ensures}
use tumbleweed.Protocol.Frame.{
  Frame, type_req_ping, type_req_produce, type_req_fetch, type_req_ack, type_req_nack,
  type_req_create_topic, type_req_list_topics, type_resp_pong, type_resp_produce, type_resp_fetch,
  type_resp_ack, type_resp_nack, type_resp_create_topic, type_resp_list_topics, type_resp_error,
}
use tumbleweed.Protocol.ProduceRequest.{ProduceRequest, unmarshal_produce_request}
use tumbleweed.Protocol.AckRequest.{AckRequest, unmarshal_ack_request}
use tumbleweed.Protocol.NackRequest.{NackRequest, unmarshal_nack_request}
use tumbleweed.Protocol.CreateTopicRequest.{CreateTopicRequest, unmarshal_create_topic_request}
use tumbleweed.Protocol.ProduceRequest.Laws.{unmarshal_produce_request-Ensures}
use tumbleweed.Protocol.ProduceResponse.Laws.{marshal_produce_response-layout}
use tumbleweed.Protocol.FetchRequest.{FetchRequest, unmarshal_fetch_request}
use tumbleweed.Protocol.FetchRequest.Laws.{unmarshal_fetch_request-Ensures}
use tumbleweed.Protocol.FetchResponse.Encode.{marshal_fetch_response-layout}
use tumbleweed.Protocol.AckRequest.Laws.{unmarshal_ack_request-Ensures}
use tumbleweed.Protocol.NackRequest.Laws.{unmarshal_nack_request-Ensures}
use tumbleweed.Protocol.CreateTopicRequest.Laws.{unmarshal_create_topic_request-Ensures}
use tumbleweed.Protocol.ErrorResponse.Laws.{marshal_error_response-layout}
use tumbleweed.Protocol.ListTopicsResponse.Encode.{marshal_list_topics_response-layout}
use tumbleweed.Server.{
  Broker, is_returned, frame_of, make_error_frame, decoded, replied, process_produce, process_fetch,
  process_ack, process_nack, process_create_topic, process_list_topics, process_frame,
}

-- A call that returns a value or an error
abbrev pub Returns : {A : Type 0} → Result A → Type 0
Returns (ok a) = Unit {0}
Returns (err e) = is_returned e ≡ true

-- The operation that a frame asks for returns, on the state at hand and the request in the frame.
pub record Heard {S : Type 0} (b : Broker S) (s : S) (f : Frame) : Type 0 where
  pub produce_returns :
      (req : ProduceRequest)
      → f.type ≡ type_req_produce
      → unmarshal_produce_request f.body ≡ ok req
      → Returns (b.produce s req.topic req.key req.value).1
  pub fetch_returns :
      (req : FetchRequest)
      → f.type ≡ type_req_fetch
      → unmarshal_fetch_request f.body ≡ ok req
      → Returns (b.fetch s req).1
  pub ack_returns :
      (req : AckRequest)
      → f.type ≡ type_req_ack
      → unmarshal_ack_request f.body ≡ ok req
      → Returns (b.ack s req.topic req.group req.offset).1
  pub nack_returns :
      (req : NackRequest)
      → f.type ≡ type_req_nack
      → unmarshal_nack_request f.body ≡ ok req
      → Returns (b.nack s req.topic req.group req.offset).1
  pub create_topic_returns :
      (req : CreateTopicRequest)
      → f.type ≡ type_req_create_topic
      → unmarshal_create_topic_request f.body ≡ ok req
      → Returns (b.create_topic s req.topic).1

-- A frame with the request's id, and either the given type or that of an error
abbrev pub Answer : ℕ → ℕ → Result Frame → Type 0
Answer type req_id r =
    (resp : Frame) × (r ≡ ok resp)
    × (resp.req_id ≡ req_id)
    × ((resp.type ≡ type) ⊎ (resp.type ≡ type_resp_error))

-- A response whose body is encoded
body-Answer :
    (made type req_id : ℕ) (m : Result (List ℕ)) (body : List ℕ)
    → ((made ≡ type) ⊎ (made ≡ type_resp_error))
    → m ≡ ok body
    → Answer type req_id (m >>= λ body. ok (frame_of made req_id body))
body-Answer made type req_id m body h e = (frame_of made req_id body, rw e refl, refl, h)

make_error_frame-Answer :
    (type req_id code : ℕ) (message : List ℕ)
    → Answer type req_id (make_error_frame req_id code message)
unfolding make_error_frame
make_error_frame-Answer type req_id code message =
    body-Answer type_resp_error type req_id _ _ (inr refl)
      (marshal_error_response-layout (record { code = code; message = message }))

module _ {S : Type 0} (text : Error → List ℕ) (b : Broker S) (type : ℕ) where
  replied-Answer :
      {A : Type 0} (code : Error → ℕ) (req_id : ℕ) (p : S × Result A) (reply : A → Result Frame)
      → Returns p.1
      → ((a : A) → Answer type req_id (reply a))
      → Answer type req_id (replied text b code req_id p reply).1
  replied-Answer code req_id (s, ok a) reply h k = k a
  replied-Answer code req_id (s, err e) reply h k =
      if_cases (Answer type req_id) (is_returned e) _ _
        (λ _. make_error_frame-Answer type req_id (code e) (text e)) (λ n. absurd (cc))

  decoded-Answer :
      {A : Type 0} (s : S) (req_id : ℕ) (P : A → Type 0) (m : Result A)
      (call : A → S × Result Frame)
      → Ensures P m
      → ((a : A) → m ≡ ok a → Answer type req_id (call a).1)
      → Answer type req_id (decoded text b s req_id m call).1
  decoded-Answer s req_id P (ok a) call h k = k a refl
  decoded-Answer s req_id P (err malformed) call h k =
      make_error_frame-Answer type req_id _ (text malformed)
  decoded-Answer s req_id P (err _) call h k = elim h [ ]

module _ {S : Type 0} (text : Error → List ℕ) (b : Broker S) (s : S) (f : Frame)
    (heard : Heard b s f) (bytes : All IsByte f.body) where
  produce-Answer :
      f.type ≡ type_req_produce → Answer type_resp_produce f.req_id (process_produce text b s f).1
  unfolding process_produce
  produce-Answer is =
      decoded-Answer text b type_resp_produce s f.req_id _ _ _
        (unmarshal_produce_request-Ensures f.body bytes)
        λ req at.
          replied-Answer text b type_resp_produce _ f.req_id _ _ (heard.produce_returns req is at)
            λ offset.
              body-Answer type_resp_produce _ f.req_id _ _ (inl refl)
                (marshal_produce_response-layout (record { offset = offset }))

  fetch-Answer :
      f.type ≡ type_req_fetch → Answer type_resp_fetch f.req_id (process_fetch text b s f).1
  unfolding process_fetch
  fetch-Answer is =
      decoded-Answer text b type_resp_fetch s f.req_id _ _ _
        (unmarshal_fetch_request-Ensures f.body bytes)
        λ req at.
          replied-Answer text b type_resp_fetch _ f.req_id _ _ (heard.fetch_returns req is at)
            λ msgs.
              body-Answer type_resp_fetch _ f.req_id _ _ (inl refl)
                (marshal_fetch_response-layout (record { messages = msgs }))

  ack-Answer : f.type ≡ type_req_ack → Answer type_resp_ack f.req_id (process_ack text b s f).1
  unfolding process_ack
  ack-Answer is =
      decoded-Answer text b type_resp_ack s f.req_id _ _ _
        (unmarshal_ack_request-Ensures f.body bytes)
        λ req at.
          replied-Answer text b type_resp_ack _ f.req_id _ _ (heard.ack_returns req is at)
            λ _. (frame_of type_resp_ack f.req_id [], refl, refl, inl refl)

  nack-Answer : f.type ≡ type_req_nack → Answer type_resp_nack f.req_id (process_nack text b s f).1
  unfolding process_nack
  nack-Answer is =
      decoded-Answer text b type_resp_nack s f.req_id _ _ _
        (unmarshal_nack_request-Ensures f.body bytes)
        λ req at.
          replied-Answer text b type_resp_nack _ f.req_id _ _ (heard.nack_returns req is at)
            λ _. (frame_of type_resp_nack f.req_id [], refl, refl, inl refl)

  create_topic-Answer :
      f.type ≡ type_req_create_topic
      → Answer type_resp_create_topic f.req_id (process_create_topic text b s f).1
  unfolding process_create_topic
  create_topic-Answer is =
      decoded-Answer text b type_resp_create_topic s f.req_id _ _ _
        (unmarshal_create_topic_request-Ensures f.body bytes)
        λ req at.
          replied-Answer text b type_resp_create_topic _ f.req_id _ _
            (heard.create_topic_returns req is at)
            λ _. (frame_of type_resp_create_topic f.req_id [], refl, refl, inl refl)

  list_topics-Answer : Answer type_resp_list_topics f.req_id (process_list_topics text b s f).1
  unfolding process_list_topics
  list_topics-Answer =
      body-Answer type_resp_list_topics _ f.req_id _ _ (inl refl)
        (marshal_list_topics_response-layout (record { topics = b.list_topics s }))

  type_is : {t : ℕ} → (f.type == t) ≡ true → f.type ≡ t
  type_is {t} e = ground (arith, e)

  at_type :
      (t : ℕ) (r : Result Frame)
      → (f.type == t) ≡ true
      → Answer (t + 128) f.req_id r
      → Answer (f.type + 128) f.req_id r
  at_type t r e a =
      let same : f.type ≡ t = ground (arith, e) in
      subst (λ n. Answer (n + 128) f.req_id r) (sym same) a

  -- Where the operation of the broker that a frame of bytes asks for returns, on the server's state and
  -- the request in the frame, the frame is answered: with a frame of the request's id, whose type is that
  -- of the request with the high bit set, or that of an error. A frame with a body that cannot be decoded,
  -- or of a type that is unknown, asks for none.
  pub process_frame-Answer :
      (unknown_text : List ℕ)
      → Answer (f.type + 128) f.req_id (process_frame text b unknown_text s f).1
  unfolding process_frame
  process_frame-Answer unknown_text =
      let P = λ (p : S × Result Frame). Answer (f.type + 128) f.req_id p.1 in
      if_cases P (f.type == type_req_ping) _ _
        (λ e. at_type type_req_ping _ e (frame_of type_resp_pong f.req_id [], refl, refl, inl refl))
        λ _.
          if_cases P (f.type == type_req_produce) _ _
            (λ e. at_type type_req_produce _ e (produce-Answer (type_is e)))
            λ _.
              if_cases P (f.type == type_req_fetch) _ _
                (λ e. at_type type_req_fetch _ e (fetch-Answer (type_is e)))
                λ _.
                  if_cases P (f.type == type_req_ack) _ _
                    (λ e. at_type type_req_ack _ e (ack-Answer (type_is e)))
                    λ _.
                      if_cases P (f.type == type_req_nack) _ _
                        (λ e. at_type type_req_nack _ e (nack-Answer (type_is e)))
                        λ _.
                          if_cases P (f.type == type_req_create_topic) _ _
                            (λ e.
                              at_type type_req_create_topic _ e (create_topic-Answer (type_is e)))
                            λ _.
                              if_cases P (f.type == type_req_list_topics) _ _
                                (λ e. at_type type_req_list_topics _ e list_topics-Answer)
                                λ _. make_error_frame-Answer _ f.req_id _ unknown_text
