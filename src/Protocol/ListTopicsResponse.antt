-- ===== src/Protocol/ListTopicsResponse.antt =====
-- pkg/protocol/protocol.go: ListTopicsResponse, Marshal and UnmarshalListTopicsResponse.
pub mod Encode
pub mod Decode
pub mod Laws
use tumbleweed.Base.{
  ℕ, zero, suc, ◌+◌, ◌%◌, ◌^◌, List, [], ◌∷◌, length, ltb, if◌then◌else◌, Result, ok, err,
  malformed, ◌>>=◌,
}
use tumbleweed.Bytes.{make, slice, copy, write_uint, read_uint}

pub record ListTopicsResponse : Type 0 where
  pub topics : List (List ℕ)

-- `totalSize` without the four bytes of the count
unfoldable pub total_size : List (List ℕ) → ℕ
total_size [] = 0
total_size (t ∷ ts) = (2 + length t) + total_size ts

-- the encoding loop
unfoldable pub marshal_topics : List (List ℕ) → List ℕ → ℕ → Result (List ℕ)
marshal_topics [] buf idx = ok buf
marshal_topics (t ∷ ts) buf idx = do
  buf ← write_uint 2 buf idx (idx + 2) (length t % 2 ^ 16)
  buf ← copy buf (idx + 2) (idx + 2 + length t) t
  marshal_topics ts buf (idx + (2 + length t))

unfoldable pub marshal_list_topics_response : ListTopicsResponse → Result (List ℕ)
marshal_list_topics_response r = do
  buf ← write_uint 4 (make (4 + total_size r.topics)) 0 4 (length r.topics % 2 ^ 32)
  marshal_topics r.topics buf 4

-- The decoding loop: `count` is the number of rounds left. The source stores into a slice of `count`
-- empty strings, all of which are overwritten when it returns.
unfoldable pub unmarshal_topics : ℕ → List ℕ → ℕ → Result (List (List ℕ))
unmarshal_topics zero body idx = ok []
unmarshal_topics (suc count) body idx = if ltb (length body) (idx + 2) then err malformed else do
  topic_len ← read_uint 2 body idx (idx + 2)
  if ltb (length body) (idx + 2 + topic_len) then err malformed else do
    topic ← slice body (idx + 2) (idx + 2 + topic_len)
    rest ← unmarshal_topics count body (idx + (2 + topic_len))
    ok (topic ∷ rest)

unfoldable pub unmarshal_list_topics_response : List ℕ → Result ListTopicsResponse
unmarshal_list_topics_response body = if ltb (length body) 4 then err malformed else do
  count ← read_uint 4 body 0 4
  topics ← unmarshal_topics count body 4
  ok (record { topics = topics })
