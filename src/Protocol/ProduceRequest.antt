-- ===== src/Protocol/ProduceRequest.antt =====
-- pkg/protocol/protocol.go: ProduceRequest, Marshal and UnmarshalProduceRequest.
pub mod Laws
use tumbleweed.Base.{
  ℕ, ◌+◌, ◌%◌, ◌^◌, List, length, ltb, if◌then◌else◌, Result, ok, err, malformed, ◌>>=◌,
}
use tumbleweed.Bytes.{make, slice, copy, write_uint, read_uint}

pub record ProduceRequest : Type 0 where
  pub topic : List ℕ
  pub key : List ℕ
  pub value : List ℕ

unfoldable pub marshal_produce_request : ProduceRequest → Result (List ℕ)
marshal_produce_request r = do
  let topic_len = length r.topic
  let key_len = length r.key
  let value_len = length r.value
  buf ← write_uint 2 (make (2 + topic_len + 4 + key_len + 4 + value_len)) 0 2 (topic_len % 2 ^ 16)
  buf ← copy buf 2 (2 + topic_len) r.topic
  let idx = 2 + topic_len
  buf ← write_uint 4 buf idx (idx + 4) (key_len % 2 ^ 32)
  buf ← copy buf (idx + 4) (idx + 4 + key_len) r.key
  let idx = idx + 4 + key_len
  buf ← write_uint 4 buf idx (idx + 4) (value_len % 2 ^ 32)
  buf ← copy buf (idx + 4) (idx + 4 + value_len) r.value
  ok buf

unfoldable pub unmarshal_produce_request : List ℕ → Result ProduceRequest
unmarshal_produce_request body = if ltb (length body) 2 then err malformed else do
  topic_len ← read_uint 2 body 0 2
  if ltb (length body) (2 + topic_len + 4) then err malformed else do
    topic ← slice body 2 (2 + topic_len)
    let idx = 2 + topic_len
    key_len ← read_uint 4 body idx (idx + 4)
    if ltb (length body) (idx + 4 + key_len + 4) then err malformed else do
      key ← slice body (idx + 4) (idx + 4 + key_len)
      let idx = idx + 4 + key_len
      value_len ← read_uint 4 body idx (idx + 4)
      if ltb (length body) (idx + 4 + value_len) then err malformed else do
        value ← slice body (idx + 4) (idx + 4 + value_len)
        ok (record { topic = topic; key = key; value = value })
