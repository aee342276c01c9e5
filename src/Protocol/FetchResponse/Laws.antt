-- ===== src/Protocol/FetchResponse/Laws.antt =====
-- pkg/protocol/protocol.go, FetchResponse: encoder and decoder together.
use mathlib.Core.Logic.{◌↔◌}
use tumbleweed.Base.{ℕ, ◌≡◌, List, [], ◌∷◌, ◌++◌, All, append_assoc, ok, err, malformed, ◌>>=◌}
use tumbleweed.Bytes.{IsByte}
use tumbleweed.Bytes.Codec.{Codec, decode-encode, decode_exact, decode_truncated}
use tumbleweed.Protocol.FetchResponse.{
  FetchResponse, marshal_fetch_response, unmarshal_fetch_response,
}
use tumbleweed.Protocol.FetchResponse.Encode.{
  fetch_response_layout, marshal_fetch_response-layout, messages_layout-append,
}
use tumbleweed.Protocol.FetchResponse.Decode.{
  FetchResponseFits, Encodes, unmarshal_fetch_response-layout, unmarshal_fetch_response-Ensures,
}

abbrev pub fetch_response_codec : Codec FetchResponse
fetch_response_codec = record {
  layout = fetch_response_layout;
  Sized = FetchResponseFits;
  encode = marshal_fetch_response;
  decode = unmarshal_fetch_response;
  encode-layout = marshal_fetch_response-layout;
  layout-append = λ r tail more. simp (append_assoc, messages_layout-append r.messages tail more);
  decode-layout = unmarshal_fetch_response-layout;
  decode_ensures = unmarshal_fetch_response-Ensures;
}

-- A FetchResponse whose fields fit is decoded as it was encoded.
pub unmarshal-marshal_fetch_response :
    (r : FetchResponse)
    → FetchResponseFits r
    → (marshal_fetch_response r >>= unmarshal_fetch_response) ≡ ok r
unmarshal-marshal_fetch_response = decode-encode fetch_response_codec

-- On any list of bytes the decoder returns a FetchResponse exactly when the bytes begin with its wire format and
-- its fields fit.
pub unmarshal_fetch_response_exact :
    (b : List ℕ) (r : FetchResponse)
    → All IsByte b
    → (unmarshal_fetch_response b ≡ ok r) ↔ Encodes b r
unmarshal_fetch_response_exact = decode_exact fetch_response_codec

-- Every proper prefix of the encoding of a FetchResponse whose fields fit is refused as malformed.
pub unmarshal_fetch_response_truncated :
    (r : FetchResponse) (front back : List ℕ) (x : ℕ)
    → FetchResponseFits r
    → All IsByte front
    → fetch_response_layout r [] ≡ front ++ (x ∷ back)
    → unmarshal_fetch_response front ≡ err malformed
unmarshal_fetch_response_truncated = decode_truncated fetch_response_codec
