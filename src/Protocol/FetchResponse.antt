-- ===== src/Protocol/FetchResponse.antt =====
-- pkg/protocol/protocol.go: Message and FetchResponse, Marshal and UnmarshalFetchResponse.
pub mod Encode
pub mod Decode
pub mod Laws
use tumbleweed.Base.{
  ℕ, zero, suc, ◌+◌, ◌%◌, ◌^◌, List, [], ◌∷◌, length, ltb, if◌then◌else◌, Result, ok, err,
  malformed, ◌>>=◌,
}
use tumbleweed.Bytes.{make, slice, copy, write_uint, read_uint}

-- `timestamp` is the 64-bit pattern of the int64.
pub record Message : Type 0 where
  pub offset : ℕ
  pub timestamp : ℕ
  pub key : List ℕ
  pub value : List ℕ

pub record FetchResponse : Type 0 where
  pub messages : List Message

-- `totalSize` without the four bytes of the count
unfoldable pub total_size : List Message → ℕ
total_size [] = 0
total_size (m ∷ ms) = (8 + 8 + 4 + length m.key + 4 + length m.value) + total_size ms

-- the body of the encoding loop
unfoldable pub marshal_message : Message → List ℕ → ℕ → Result (List ℕ)
marshal_message m buf idx = do
  let key_len = length m.key
  let value_len = length m.value
  buf ← write_uint 8 buf idx (idx + 8) m.offset
  buf ← write_uint 8 buf (idx + 8) (idx + 16) m.timestamp
  buf ← write_uint 4 buf (idx + 16) (idx + 20) (key_len % 2 ^ 32)
  buf ← copy buf (idx + 20) (idx + 20 + key_len) m.key
  let idx = idx + 20 + key_len
  buf ← write_uint 4 buf idx (idx + 4) (value_len % 2 ^ 32)
  buf ← copy buf (idx + 4) (idx + 4 + value_len) m.value
  ok buf

unfoldable pub marshal_messages : List Message → List ℕ → ℕ → Result (List ℕ)
marshal_messages [] buf idx = ok buf
marshal_messages (m ∷ ms) buf idx = do
  buf ← marshal_message m buf idx
  marshal_messages ms buf (idx + 20 + length m.key + 4 + length m.value)

unfoldable pub marshal_fetch_response : FetchResponse → Result (List ℕ)
marshal_fetch_response r = do
  buf ← write_uint 4 (make (4 + total_size r.messages)) 0 4 (length r.messages % 2 ^ 32)
  marshal_messages r.messages buf 4

-- The decoding loop: `count` is the number of rounds left. The source stores into a slice of `count`
-- zero values, all of which are overwritten when it returns.
unfoldable pub unmarshal_messages : ℕ → List ℕ → ℕ → Result (List Message)
unmarshal_messages zero body idx = ok []
unmarshal_messages (suc count) body idx = if ltb (length body) (idx + 20) then err malformed else do
  offset ← read_uint 8 body idx (idx + 8)
  timestamp ← read_uint 8 body (idx + 8) (idx + 16)
  key_len ← read_uint 4 body (idx + 16) (idx + 20)
  if ltb (length body) (idx + 20 + key_len + 4) then err malformed else do
    key ← slice body (idx + 20) (idx + 20 + key_len)
    let idx = idx + 20 + key_len
    value_len ← read_uint 4 body idx (idx + 4)
    if ltb (length body) (idx + 4 + value_len) then err malformed else do
      value ← slice body (idx + 4) (idx + 4 + value_len)
      rest ← unmarshal_messages count body (idx + 4 + value_len)
      ok (record { offset = offset; timestamp = timestamp; key = key; value = value } ∷ rest)

unfoldable pub unmarshal_fetch_response : List ℕ → Result FetchResponse
unmarshal_fetch_response body = if ltb (length body) 4 then err malformed else do
  count ← read_uint 4 body 0 4
  messages ← unmarshal_messages count body 4
  ok (record { messages = messages })
