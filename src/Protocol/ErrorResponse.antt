-- ===== src/Protocol/ErrorResponse.antt =====
-- pkg/protocol/protocol.go: ErrorResponse, Marshal and UnmarshalErrorResponse.
pub mod Laws
use tumbleweed.Base.{
  ℕ, ◌+◌, ◌%◌, ◌^◌, List, length, ltb, if◌then◌else◌, Result, ok, err, malformed, ◌>>=◌,
}
use tumbleweed.Bytes.{make, slice, copy, write_uint, read_uint}

pub record ErrorResponse : Type 0 where
  pub code : ℕ
  pub message : List ℕ

unfoldable pub marshal_error_response : ErrorResponse → Result (List ℕ)
marshal_error_response r = do
  let message_len = length r.message
  buf ← write_uint 2 (make (2 + 2 + message_len)) 0 2 r.code
  buf ← write_uint 2 buf 2 4 (message_len % 2 ^ 16)
  buf ← copy buf 4 (length buf) r.message
  ok buf

unfoldable pub unmarshal_error_response : List ℕ → Result ErrorResponse
unmarshal_error_response body = if ltb (length body) 4 then err malformed else do
  code ← read_uint 2 body 0 2
  message_len ← read_uint 2 body 2 4
  if ltb (length body) (4 + message_len) then err malformed else do
    message ← slice body 4 (4 + message_len)
    ok (record { code = code; message = message })
