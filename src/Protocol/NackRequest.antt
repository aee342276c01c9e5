-- ===== src/Protocol/NackRequest.antt =====
-- pkg/protocol/protocol.go: NackRequest, Marshal and UnmarshalNackRequest.
pub mod Laws
use tumbleweed.Base.{
  ℕ, ◌+◌, ◌%◌, ◌^◌, List, length, ltb, if◌then◌else◌, Result, ok, err, malformed, ◌>>=◌,
}
use tumbleweed.Bytes.{make, slice, copy, write_uint, read_uint}

pub record NackRequest : Type 0 where
  pub topic : List ℕ
  pub group : List ℕ
  pub offset : ℕ

unfoldable pub marshal_nack_request : NackRequest → Result (List ℕ)
marshal_nack_request r = do
  let topic_len = length r.topic
  let group_len = length r.group
  buf ← write_uint 2 (make (2 + topic_len + 2 + group_len + 8)) 0 2 (topic_len % 2 ^ 16)
  buf ← copy buf 2 (2 + topic_len) r.topic
  let idx = 2 + topic_len
  buf ← write_uint 2 buf idx (idx + 2) (group_len % 2 ^ 16)
  buf ← copy buf (idx + 2) (idx + 2 + group_len) r.group
  let idx = idx + 2 + group_len
  buf ← write_uint 8 buf idx (idx + 8) r.offset
  ok buf

unfoldable pub unmarshal_nack_request : List ℕ → Result NackRequest
unmarshal_nack_request body = if ltb (length body) 2 then err malformed else do
  topic_len ← read_uint 2 body 0 2
  if ltb (length body) (2 + topic_len + 2) then err malformed else do
    topic ← slice body 2 (2 + topic_len)
    let idx = 2 + topic_len
    group_len ← read_uint 2 body idx (idx + 2)
    if ltb (length body) (idx + 2 + group_len + 8) then err malformed else do
      group ← slice body (idx + 2) (idx + 2 + group_len)
      let idx = idx + 2 + group_len
      offset ← read_uint 8 body idx (idx + 8)
      ok (record { topic = topic; group = group; offset = offset })
