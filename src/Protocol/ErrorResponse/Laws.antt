-- ===== src/Protocol/ErrorResponse/Laws.antt =====
-- pkg/protocol/protocol.go, ErrorResponse: the wire format, and the encoder and decoder against it.
use mathlib.Core.Logic.{◌↔◌}
use native.Mathlib.Nat.{mod-eq_of_lt}
use tumbleweed.Base.{
  ℕ, ◌+◌, ◌%◌, ◌^◌, ◌<◌, ◌≡◌, ap, ◌∙◌, List, [], ◌∷◌, ◌++◌, length, All, append_assoc, append-nil,
  ok, err, malformed, ◌>>=◌, arith,
}
use tumbleweed.Bytes.{make, put_uint, IsByte}
use tumbleweed.Bytes.Buffer.{sizes, copy_fill, write_uint_fill}
use tumbleweed.Bytes.Codec.{Codec, decode-encode, decode_exact, decode_truncated}
use tumbleweed.Bytes.Cursor.{At, At-start, At-uint, check_passes, slice_passes, read_uint_passes}
use tumbleweed.Bytes.Ensures.{Ensures, Bytes-start, check-Ensures, slice-Ensures, read_uint-Ensures}
use tumbleweed.Protocol.ErrorResponse.{
  ErrorResponse, marshal_error_response, unmarshal_error_response,
}

-- The wire format of ErrorResponse, and then `tail`.
abbrev pub error_response_layout : ErrorResponse → List ℕ → List ℕ
error_response_layout r tail =
    put_uint 2 r.code ++ (put_uint 2 (length r.message % 2 ^ 16) ++ (r.message ++ tail))

pub marshal_error_response-layout :
    (r : ErrorResponse) → marshal_error_response r ≡ ok (error_response_layout r [])
unfolding marshal_error_response
marshal_error_response-layout r =
    let n1 = length r.message in
    let b1 = [] ++ put_uint 2 r.code in
    let b2 = b1 ++ put_uint 2 (n1 % 2 ^ 16) in
    write_uint_fill [] 2 r.code (0) (2) (2 + 2 + n1) (2 + n1) _ (omega sizes)
    ∙ write_uint_fill b1 2 (n1 % 2 ^ 16) (2) (4) (2 + n1) (n1) _ (omega sizes)
    ∙ copy_fill b2 r.message (4) (length (b2 ++ make n1)) (n1) (0) ok (omega sizes)
    ∙ ap ok (simp (append_assoc, append-nil))

-- Each field fits the number of bytes that the format gives it.
pub record ErrorResponseFits (r : ErrorResponse) : Type 0 where
  pub code_fits : r.code < 2 ^ 16
  pub message_fits : length r.message < 2 ^ 16

pub unmarshal_error_response-layout :
    (r : ErrorResponse) (tail : List ℕ)
    → ErrorResponseFits r
    → unmarshal_error_response (error_response_layout r tail) ≡ ok r
unfolding unmarshal_error_response
unmarshal_error_response-layout r tail h =
    let n1 = length r.message in
    let r2 = r.message ++ tail in
    let r1 = put_uint 2 n1 ++ r2 in
    let r0 = put_uint 2 r.code ++ r1 in
    let a0 : At r0 0 r0 = At-start r0 in
    let a1 : At r0 (2) r1 = At-uint 2 r.code (2) r1 a0 (omega arith) in
    let a2 : At r0 (4) r2 = At-uint 2 n1 (4) r2 a1 (omega arith) in
    rw (mod-eq_of_lt h.message_fits) (
      check_passes (4) r0 _ a0 (omega sizes)
      ∙ read_uint_passes 2 r.code (2) r1 _ a0 (omega arith) h.code_fits
      ∙ read_uint_passes 2 n1 (4) r2 _ a1 (omega arith) h.message_fits
      ∙ check_passes (4 + n1) r2 _ a2 (omega sizes)
      ∙ slice_passes r.message tail (4 + n1) _ a2 (omega arith))

abbrev pub Encodes : List ℕ → ErrorResponse → Type 0
Encodes b r = (tail : List ℕ) × (b ≡ error_response_layout r tail) × ErrorResponseFits r

pub unmarshal_error_response-Ensures :
    (b : List ℕ) → All IsByte b → Ensures (Encodes b) (unmarshal_error_response b)
unfolding unmarshal_error_response
unmarshal_error_response-Ensures b bytes = check-Ensures (Encodes b) (length b) (4) _ λ h1.
    read_uint-Ensures (Encodes b) {i = 0} 2 (2) _ (Bytes-start b bytes) (omega arith) (omega arith)
      λ v0 m0 e0 f0 c0.
        read_uint-Ensures (Encodes b) {i = 2} 2 (4) _ c0 (omega arith) (omega arith)
          λ l1 m1 e1 f1 c1. check-Ensures (Encodes b) (length b) (4 + l1) _ λ h2.
            slice-Ensures (Encodes b) {i = 4} l1 (4 + l1) _ c1 (omega arith) (omega arith)
              λ s2 m2 e2 z2 c2. (m2, rw (z2, mod-eq_of_lt f1) (simp (e0, e1, e2)), omega arith)

abbrev pub error_response_codec : Codec ErrorResponse
error_response_codec = record {
  layout = error_response_layout;
  Sized = ErrorResponseFits;
  encode = marshal_error_response;
  decode = unmarshal_error_response;
  encode-layout = marshal_error_response-layout;
  layout-append = λ r tail more. simp append_assoc;
  decode-layout = unmarshal_error_response-layout;
  decode_ensures = unmarshal_error_response-Ensures;
}

-- An ErrorResponse whose fields fit is decoded as it was encoded.
pub unmarshal-marshal_error_response :
    (r : ErrorResponse)
    → ErrorResponseFits r
    → (marshal_error_response r >>= unmarshal_error_response) ≡ ok r
unmarshal-marshal_error_response = decode-encode error_response_codec

-- On any list of bytes the decoder returns an ErrorResponse exactly when the bytes begin with its wire format and
-- its fields fit.
pub unmarshal_error_response_exact :
    (b : List ℕ) (r : ErrorResponse)
    → All IsByte b
    → (unmarshal_error_response b ≡ ok r) ↔ Encodes b r
unmarshal_error_response_exact = decode_exact error_response_codec

-- Every proper prefix of the encoding of an ErrorResponse whose fields fit is refused as malformed.
pub unmarshal_error_response_truncated :
    (r : ErrorResponse) (front back : List ℕ) (x : ℕ)
    → ErrorResponseFits r
    → All IsByte front
    → error_response_layout r [] ≡ front ++ (x ∷ back)
    → unmarshal_error_response front ≡ err malformed
unmarshal_error_response_truncated = decode_truncated error_response_codec
