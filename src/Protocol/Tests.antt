-- ===== src/Protocol/Tests.antt =====
-- The theorems on the wire format at concrete values.
use mathlib.Core.Logic.{◌↔◌}
use tumbleweed.Base.{
  ℕ, ◌-◌, ◌≡◌, ◌≤◌, refl, List, [], ◌∷◌, ◌++◌, length, take, leb, if◌then◌else◌, ok, err, malformed,
  io, ◌>>=◌, arith,
}
use tumbleweed.Bytes.{put_uint}
use tumbleweed.Protocol.ProduceRequest.{ProduceRequest, unmarshal_produce_request}
use tumbleweed.Protocol.ProduceRequest.Laws.{
  ProduceRequestFits, Encodes, produce_request_layout, unmarshal_produce_request_exact,
  unmarshal_produce_request_truncated,
}
use tumbleweed.Protocol.FetchResponse.{FetchResponse, unmarshal_fetch_response}
use tumbleweed.Protocol.FetchResponse.Decode.{MessageFits, FetchResponseFits}
use tumbleweed.Protocol.FetchResponse.Decode
use tumbleweed.Protocol.FetchResponse.Laws.{unmarshal_fetch_response_exact}
use tumbleweed.Protocol.Messages.{
  fetch_response, is_fetched, marshal_body, unmarshal_body, unmarshal-marshal_body,
}
use tumbleweed.Protocol.Frame.{Frame, read_frame, write_frame, type_req_ack}
use tumbleweed.Protocol.Frame.Laws.{
  FrameFits, frame_layout, write_frame_lem, read_frame-write_frame,
}

abbrev a_produce_request : ProduceRequest
a_produce_request = record { topic = 97 ∷ 98 ∷ []; key = 1 ∷ []; value = 7 ∷ 8 ∷ 9 ∷ [] }

a_produce_request_fits : ProduceRequestFits a_produce_request
a_produce_request_fits = record {
  topic_fits = omega arith;
  key_fits = omega arith;
  value_fits = omega arith;
}

-- a message that stops where the length of its value would stand
abbrev short_bytes : List ℕ
short_bytes = 0 ∷ 2 ∷ 97 ∷ 98 ∷ 0 ∷ 0 ∷ 0 ∷ 1 ∷ 1 ∷ 0 ∷ 0 ∷ 0 ∷ []

abbrev whole_bytes : List ℕ
whole_bytes = short_bytes ++ (3 ∷ 7 ∷ 8 ∷ 9 ∷ [])

unmarshal_produce_request_exact_example :
    (unmarshal_produce_request whole_bytes ≡ ok a_produce_request)
    ↔ Encodes whole_bytes a_produce_request
unmarshal_produce_request_exact_example =
    unmarshal_produce_request_exact whole_bytes a_produce_request (omega arith)

whole : produce_request_layout a_produce_request [] ≡ whole_bytes
unfolding put_uint
whole = refl

unmarshal_produce_request_truncated_example : unmarshal_produce_request short_bytes ≡ err malformed
unmarshal_produce_request_truncated_example =
    unmarshal_produce_request_truncated a_produce_request short_bytes (7 ∷ 8 ∷ 9 ∷ []) 3
      a_produce_request_fits (omega arith) whole

abbrev a_fetch_response : FetchResponse
a_fetch_response = record {
  messages =
      record { offset = 1; timestamp = 5; key = []; value = 7 ∷ [] }
      ∷ record { offset = 2; timestamp = 6; key = 4 ∷ []; value = [] }
      ∷ [];
}

one_fits : MessageFits (record { offset = 1; timestamp = 5; key = []; value = 7 ∷ [] })
one_fits = record {
  offset_fits = omega arith;
  timestamp_fits = omega arith;
  key_fits = omega arith;
  value_fits = omega arith;
}

two_fits : MessageFits (record { offset = 2; timestamp = 6; key = 4 ∷ []; value = [] })
two_fits = record {
  offset_fits = omega arith;
  timestamp_fits = omega arith;
  key_fits = omega arith;
  value_fits = omega arith;
}

a_fetch_response_fits : FetchResponseFits a_fetch_response
a_fetch_response_fits = record { count_fits = omega arith; all_fit = (one_fits, (two_fits, tt)) }

unmarshal-marshal_body_example :
    (marshal_body (fetch_response a_fetch_response) >>= unmarshal_body is_fetched)
    ≡ ok (fetch_response a_fetch_response)
unmarshal-marshal_body_example =
    unmarshal-marshal_body (fetch_response a_fetch_response) a_fetch_response_fits

unmarshal_fetch_response_exact_example :
    (unmarshal_fetch_response (0 ∷ 0 ∷ 0 ∷ 0 ∷ []) ≡ ok (record { messages = [] }))
    ↔ Decode.Encodes (0 ∷ 0 ∷ 0 ∷ 0 ∷ []) (record { messages = [] })
unmarshal_fetch_response_exact_example =
    unmarshal_fetch_response_exact (0 ∷ 0 ∷ 0 ∷ 0 ∷ []) (record { messages = [] }) (omega arith)

abbrev a_frame : Frame
a_frame = record { type = type_req_ack; req_id = 70000; size = 2; body = 5 ∷ 6 ∷ [] }

a_frame_fits : FrameFits a_frame
a_frame_fits = record {
  type_fits = omega arith;
  req_id_fits = omega arith;
  body_fits = omega arith;
  size_agrees = refl;
}

write_frame_lem_example : write_frame (record { sent = []; room = 10 }) a_frame ≡ (
  record {
    sent = [] ++ take 10 (frame_layout a_frame []);
    room = 10 - length (frame_layout a_frame []);
  },
  if leb (length (frame_layout a_frame [])) 10 then ok tt else err io,
)
write_frame_lem_example = write_frame_lem (record { sent = []; room = 10 }) a_frame

small_frame : length (frame_layout a_frame []) ≤ 20
unfolding put_uint
small_frame = omega arith

read_frame-write_frame_example :
    ((write_frame (record { sent = []; room = 20 }) a_frame).1 ≡ ok tt)
    × (read_frame (write_frame (record { sent = []; room = 20 }) a_frame).0.sent ≡ ok (a_frame, []))
read_frame-write_frame_example = read_frame-write_frame a_frame 20 a_frame_fits small_frame
