-- ===== src/Protocol/ProduceResponse/Laws.antt =====
-- pkg/protocol/protocol.go, ProduceResponse: the wire format, and the encoder and decoder against it.
use mathlib.Core.Logic.{◌↔◌}
use tumbleweed.Base.{
  ℕ, ◌^◌, ◌<◌, ◌≡◌, refl, ap, ◌∙◌, List, [], ◌∷◌, ◌++◌, length, All, append_assoc, append-nil, ok,
  err, malformed, ◌>>=◌, arith,
}
use tumbleweed.Bytes.{put_uint, IsByte}
use tumbleweed.Bytes.Buffer.{sizes, write_uint_fill}
use tumbleweed.Bytes.Codec.{Codec, decode-encode, decode_exact, decode_truncated}
use tumbleweed.Bytes.Cursor.{At, At-start, check_passes, read_uint_passes}
use tumbleweed.Bytes.Ensures.{Ensures, Bytes-start, check-Ensures, read_uint-Ensures}
use tumbleweed.Protocol.ProduceResponse.{
  ProduceResponse, marshal_produce_response, unmarshal_produce_response,
}

-- The wire format of ProduceResponse, and then `tail`.
abbrev pub produce_response_layout : ProduceResponse → List ℕ → List ℕ
produce_response_layout r tail = put_uint 8 r.offset ++ tail

pub marshal_produce_response-layout :
    (r : ProduceResponse) → marshal_produce_response r ≡ ok (produce_response_layout r [])
unfolding marshal_produce_response
marshal_produce_response-layout r =
    write_uint_fill [] 8 r.offset (0) (8) (8) (0) ok (omega sizes)
    ∙ ap ok (simp (append_assoc, append-nil))

-- Each field fits the number of bytes that the format gives it.
pub record ProduceResponseFits (r : ProduceResponse) : Type 0 where
  pub offset_fits : r.offset < 2 ^ 64

pub unmarshal_produce_response-layout :
    (r : ProduceResponse) (tail : List ℕ)
    → ProduceResponseFits r
    → unmarshal_produce_response (produce_response_layout r tail) ≡ ok r
unfolding unmarshal_produce_response
unmarshal_produce_response-layout r tail h =
    let r0 = put_uint 8 r.offset ++ tail in
    let a0 : At r0 0 r0 = At-start r0 in
    (check_passes (8) r0 _ a0 (omega sizes)
      ∙ read_uint_passes 8 r.offset (8) tail _ a0 refl h.offset_fits)

abbrev pub Encodes : List ℕ → ProduceResponse → Type 0
Encodes b r = (tail : List ℕ) × (b ≡ produce_response_layout r tail) × ProduceResponseFits r

pub unmarshal_produce_response-Ensures :
    (b : List ℕ) → All IsByte b → Ensures (Encodes b) (unmarshal_produce_response b)
unfolding unmarshal_produce_response
unmarshal_produce_response-Ensures b bytes = check-Ensures (Encodes b) (length b) (8) _ λ h1.
    read_uint-Ensures (Encodes b) {i = 0} 8 (8) _ (Bytes-start b bytes) refl (omega arith)
      λ v0 m0 e0 f0 c0. (m0, simp (e0), omega arith)

abbrev pub produce_response_codec : Codec ProduceResponse
produce_response_codec = record {
  layout = produce_response_layout;
  Sized = ProduceResponseFits;
  encode = marshal_produce_response;
  decode = unmarshal_produce_response;
  encode-layout = marshal_produce_response-layout;
  layout-append = λ r tail more. simp append_assoc;
  decode-layout = unmarshal_produce_response-layout;
  decode_ensures = unmarshal_produce_response-Ensures;
}

-- A ProduceResponse whose fields fit is decoded as it was encoded.
pub unmarshal-marshal_produce_response :
    (r : ProduceResponse)
    → ProduceResponseFits r
    → (marshal_produce_response r >>= unmarshal_produce_response) ≡ ok r
unmarshal-marshal_produce_response = decode-encode produce_response_codec

-- On any list of bytes the decoder returns a ProduceResponse exactly when the bytes begin with its wire format and
-- its fields fit.
pub unmarshal_produce_response_exact :
    (b : List ℕ) (r : ProduceResponse)
    → All IsByte b
    → (unmarshal_produce_response b ≡ ok r) ↔ Encodes b r
unmarshal_produce_response_exact = decode_exact produce_response_codec

-- Every proper prefix of the encoding of a ProduceResponse whose fields fit is refused as malformed.
pub unmarshal_produce_response_truncated :
    (r : ProduceResponse) (front back : List ℕ) (x : ℕ)
    → ProduceResponseFits r
    → All IsByte front
    → produce_response_layout r [] ≡ front ++ (x ∷ back)
    → unmarshal_produce_response front ≡ err malformed
unmarshal_produce_response_truncated = decode_truncated produce_response_codec
