-- ===== src/Protocol/FetchRequest.antt =====
-- pkg/protocol/protocol.go: FetchRequest, Marshal and UnmarshalFetchRequest.
pub mod Laws
use tumbleweed.Base.{
  ℕ, ◌+◌, ◌%◌, ◌^◌, List, length, ltb, if◌then◌else◌, Result, ok, err, malformed, ◌>>=◌,
}
use tumbleweed.Bytes.{make, slice, copy, write_uint, read_uint}

pub record FetchRequest : Type 0 where
  pub topic : List ℕ
  pub group : List ℕ
  pub consumer_id : List ℕ
  pub max_messages : ℕ
  pub ack_timeout_ms : ℕ
  pub long_poll_timeout_ms : ℕ

unfoldable pub marshal_fetch_request : FetchRequest → Result (List ℕ)
marshal_fetch_request r = do
  let topic_len = length r.topic
  let group_len = length r.group
  let consumer_len = length r.consumer_id
  let size = 2 + topic_len + 2 + group_len + 2 + consumer_len + 4 + 4 + 4
  buf ← write_uint 2 (make size) 0 2 (topic_len % 2 ^ 16)
  buf ← copy buf 2 (2 + topic_len) r.topic
  let idx = 2 + topic_len
  buf ← write_uint 2 buf idx (idx + 2) (group_len % 2 ^ 16)
  buf ← copy buf (idx + 2) (idx + 2 + group_len) r.group
  let idx = idx + 2 + group_len
  buf ← write_uint 2 buf idx (idx + 2) (consumer_len % 2 ^ 16)
  buf ← copy buf (idx + 2) (idx + 2 + consumer_len) r.consumer_id
  let idx = idx + 2 + consumer_len
  buf ← write_uint 4 buf idx (idx + 4) r.max_messages
  buf ← write_uint 4 buf (idx + 4) (idx + 8) r.ack_timeout_ms
  buf ← write_uint 4 buf (idx + 8) (idx + 12) r.long_poll_timeout_ms
  ok buf

unfoldable pub unmarshal_fetch_request : List ℕ → Result FetchRequest
unmarshal_fetch_request body = if ltb (length body) 2 then err malformed else do
  topic_len ← read_uint 2 body 0 2
  if ltb (length body) (2 + topic_len + 2) then err malformed else do
    topic ← slice body 2 (2 + topic_len)
    let idx = 2 + topic_len
    group_len ← read_uint 2 body idx (idx + 2)
    if ltb (length body) (idx + 2 + group_len + 2) then err malformed else do
      group ← slice body (idx + 2) (idx + 2 + group_len)
      let idx = idx + 2 + group_len
      consumer_len ← read_uint 2 body idx (idx + 2)
      if ltb (length body) (idx + 2 + consumer_len + 12) then err malformed else do
        consumer_id ← slice body (idx + 2) (idx + 2 + consumer_len)
        let idx = idx + 2 + consumer_len
        max_messages ← read_uint 4 body idx (idx + 4)
        ack_timeout ← read_uint 4 body (idx + 4) (idx + 8)
        long_poll_timeout ← read_uint 4 body (idx + 8) (idx + 12)
        ok (record {
          topic = topic;
          group = group;
          consumer_id = consumer_id;
          max_messages = max_messages;
          ack_timeout_ms = ack_timeout;
          long_poll_timeout_ms = long_poll_timeout;
        })
