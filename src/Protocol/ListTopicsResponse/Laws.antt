-- ===== src/Protocol/ListTopicsResponse/Laws.antt =====
-- pkg/protocol/protocol.go, ListTopicsResponse: encoder and decoder together.
use mathlib.Core.Logic.{◌↔◌}
use tumbleweed.Base.{ℕ, ◌≡◌, List, [], ◌∷◌, ◌++◌, All, append_assoc, ok, err, malformed, ◌>>=◌}
use tumbleweed.Bytes.{IsByte}
use tumbleweed.Bytes.Codec.{Codec, decode-encode, decode_exact, decode_truncated}
use tumbleweed.Protocol.ListTopicsResponse.{
  ListTopicsResponse, marshal_list_topics_response, unmarshal_list_topics_response,
}
use tumbleweed.Protocol.ListTopicsResponse.Encode.{
  list_topics_response_layout, marshal_list_topics_response-layout, topics_layout-append,
}
use tumbleweed.Protocol.ListTopicsResponse.Decode.{
  ListTopicsResponseFits, Encodes, unmarshal_list_topics_response-layout,
  unmarshal_list_topics_response-Ensures,
}

abbrev pub list_topics_response_codec : Codec ListTopicsResponse
list_topics_response_codec = record {
  layout = list_topics_response_layout;
  Sized = ListTopicsResponseFits;
  encode = marshal_list_topics_response;
  decode = unmarshal_list_topics_response;
  encode-layout = marshal_list_topics_response-layout;
  layout-append = λ r tail more. simp (append_assoc, topics_layout-append r.topics tail more);
  decode-layout = unmarshal_list_topics_response-layout;
  decode_ensures = unmarshal_list_topics_response-Ensures;
}

-- A ListTopicsResponse whose fields fit is decoded as it was encoded.
pub unmarshal-marshal_list_topics_response :
    (r : ListTopicsResponse)
    → ListTopicsResponseFits r
    → (marshal_list_topics_response r >>= unmarshal_list_topics_response) ≡ ok r
unmarshal-marshal_list_topics_response = decode-encode list_topics_response_codec

-- On any list of bytes the decoder returns a ListTopicsResponse exactly when the bytes begin with its wire format and
-- its fields fit.
pub unmarshal_list_topics_response_exact :
    (b : List ℕ) (r : ListTopicsResponse)
    → All IsByte b
    → (unmarshal_list_topics_response b ≡ ok r) ↔ Encodes b r
unmarshal_list_topics_response_exact = decode_exact list_topics_response_codec

-- Every proper prefix of the encoding of a ListTopicsResponse whose fields fit is refused as malformed.
pub unmarshal_list_topics_response_truncated :
    (r : ListTopicsResponse) (front back : List ℕ) (x : ℕ)
    → ListTopicsResponseFits r
    → All IsByte front
    → list_topics_response_layout r [] ≡ front ++ (x ∷ back)
    → unmarshal_list_topics_response front ≡ err malformed
unmarshal_list_topics_response_truncated = decode_truncated list_topics_response_codec
