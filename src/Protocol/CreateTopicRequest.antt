-- ===== src/Protocol/CreateTopicRequest.antt =====
-- pkg/protocol/protocol.go: CreateTopicRequest, Marshal and UnmarshalCreateTopicRequest.
pub mod Laws
use tumbleweed.Base.{
  ℕ, ◌+◌, ◌%◌, ◌^◌, List, length, ltb, if◌then◌else◌, Result, ok, err, malformed, ◌>>=◌,
}
use tumbleweed.Bytes.{make, slice, copy, write_uint, read_uint}

pub record CreateTopicRequest : Type 0 where
  pub topic : List ℕ

unfoldable pub marshal_create_topic_request : CreateTopicRequest → Result (List ℕ)
marshal_create_topic_request r = do
  let topic_len = length r.topic
  buf ← write_uint 2 (make (2 + topic_len)) 0 2 (topic_len % 2 ^ 16)
  buf ← copy buf 2 (length buf) r.topic
  ok buf

unfoldable pub unmarshal_create_topic_request : List ℕ → Result CreateTopicRequest
unmarshal_create_topic_request body = if ltb (length body) 2 then err malformed else do
  topic_len ← read_uint 2 body 0 2
  if ltb (length body) (2 + topic_len)
      then err malformed
      else do topic ← slice body 2 (2 + topic_len); ok (record { topic = topic })
