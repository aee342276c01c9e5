-- ===== src/Protocol/ProduceResponse.antt =====
-- pkg/protocol/protocol.go: ProduceResponse, Marshal and UnmarshalProduceResponse.
pub mod Laws
use tumbleweed.Base.{
  ℕ, ◌+◌, ◌%◌, ◌^◌, List, length, ltb, if◌then◌else◌, Result, ok, err, malformed, ◌>>=◌,
}
use tumbleweed.Bytes.{make, slice, copy, write_uint, read_uint}

pub record ProduceResponse : Type 0 where
  pub offset : ℕ

unfoldable pub marshal_produce_response : ProduceResponse → Result (List ℕ)
marshal_produce_response r = do buf ← write_uint 8 (make 8) 0 8 r.offset; ok buf

unfoldable pub unmarshal_produce_response : List ℕ → Result ProduceResponse
unmarshal_produce_response body =
    if ltb (length body) 8
    then err malformed
    else do offset ← read_uint 8 body 0 8; ok (record { offset = offset })
