-- ===== src/Protocol/CreateTopicRequest/Laws.antt =====
-- pkg/protocol/protocol.go, CreateTopicRequest: the wire format, and the encoder and decoder against it.
use mathlib.Core.Logic.{◌↔◌}
use native.Mathlib.Nat.{mod-eq_of_lt}
use tumbleweed.Base.{
  ℕ, ◌+◌, ◌%◌, ◌^◌, ◌<◌, ◌≡◌, refl, ap, ◌∙◌, List, [], ◌∷◌, ◌++◌, length, All, append_assoc,
  append-nil, ok, err, malformed, ◌>>=◌, arith,
}
use tumbleweed.Bytes.{make, put_uint, IsByte}
use tumbleweed.Bytes.Buffer.{sizes, copy_fill, write_uint_fill}
use tumbleweed.Bytes.Codec.{Codec, decode-encode, decode_exact, decode_truncated}
use tumbleweed.Bytes.Cursor.{At, At-start, At-uint, check_passes, slice_passes, read_uint_passes}
use tumbleweed.Bytes.Ensures.{Ensures, Bytes-start, check-Ensures, slice-Ensures, read_uint-Ensures}
use tumbleweed.Protocol.CreateTopicRequest.{
  CreateTopicRequest, marshal_create_topic_request, unmarshal_create_topic_request,
}

-- The wire format of CreateTopicRequest, and then `tail`.
abbrev pub create_topic_request_layout : CreateTopicRequest → List ℕ → List ℕ
create_topic_request_layout r tail = put_uint 2 (length r.topic % 2 ^ 16) ++ (r.topic ++ tail)

pub marshal_create_topic_request-layout :
    (r : CreateTopicRequest)
    → marshal_create_topic_request r ≡ ok (create_topic_request_layout r [])
unfolding marshal_create_topic_request
marshal_create_topic_request-layout r =
    let n1 = length r.topic in
    let b1 = [] ++ put_uint 2 (n1 % 2 ^ 16) in
    write_uint_fill [] 2 (n1 % 2 ^ 16) (0) (2) (2 + n1) (n1) _ (omega sizes)
    ∙ copy_fill b1 r.topic (2) (length (b1 ++ make n1)) (n1) (0) ok (omega sizes)
    ∙ ap ok (simp (append_assoc, append-nil))

-- Each field fits the number of bytes that the format gives it.
pub record CreateTopicRequestFits (r : CreateTopicRequest) : Type 0 where
  pub topic_fits : length r.topic < 2 ^ 16

pub unmarshal_create_topic_request-layout :
    (r : CreateTopicRequest) (tail : List ℕ)
    → CreateTopicRequestFits r
    → unmarshal_create_topic_request (create_topic_request_layout r tail) ≡ ok r
unfolding unmarshal_create_topic_request
unmarshal_create_topic_request-layout r tail h =
    let n1 = length r.topic in
    let r1 = r.topic ++ tail in
    let r0 = put_uint 2 n1 ++ r1 in
    let a0 : At r0 0 r0 = At-start r0 in
    let a1 : At r0 (2) r1 = At-uint 2 n1 (2) r1 a0 refl in
    rw (mod-eq_of_lt h.topic_fits) (
      check_passes (2) r0 _ a0 (omega sizes)
      ∙ read_uint_passes 2 n1 (2) r1 _ a0 refl h.topic_fits
      ∙ check_passes (2 + n1) r1 _ a1 (omega sizes)
      ∙ slice_passes r.topic tail (2 + n1) _ a1 refl)

abbrev pub Encodes : List ℕ → CreateTopicRequest → Type 0
Encodes b r = (tail : List ℕ) × (b ≡ create_topic_request_layout r tail) × CreateTopicRequestFits r

pub unmarshal_create_topic_request-Ensures :
    (b : List ℕ) → All IsByte b → Ensures (Encodes b) (unmarshal_create_topic_request b)
unfolding unmarshal_create_topic_request
unmarshal_create_topic_request-Ensures b bytes = check-Ensures (Encodes b) (length b) (2) _ λ h1.
    read_uint-Ensures (Encodes b) {i = 0} 2 (2) _ (Bytes-start b bytes) refl (omega arith)
      λ l1 m0 e0 f0 c0. check-Ensures (Encodes b) (length b) (2 + l1) _ λ h2.
        slice-Ensures (Encodes b) {i = 2} l1 (2 + l1) _ c0 refl (omega arith)
          λ s1 m1 e1 z1 c1. (m1, rw (z1, mod-eq_of_lt f0) (simp (e0, e1)), omega arith)

abbrev pub create_topic_request_codec : Codec CreateTopicRequest
create_topic_request_codec = record {
  layout = create_topic_request_layout;
  Sized = CreateTopicRequestFits;
  encode = marshal_create_topic_request;
  decode = unmarshal_create_topic_request;
  encode-layout = marshal_create_topic_request-layout;
  layout-append = λ r tail more. simp append_assoc;
  decode-layout = unmarshal_create_topic_request-layout;
  decode_ensures = unmarshal_create_topic_request-Ensures;
}

-- A CreateTopicRequest whose fields fit is decoded as it was encoded.
pub unmarshal-marshal_create_topic_request :
    (r : CreateTopicRequest)
    → CreateTopicRequestFits r
    → (marshal_create_topic_request r >>= unmarshal_create_topic_request) ≡ ok r
unmarshal-marshal_create_topic_request = decode-encode create_topic_request_codec

-- On any list of bytes the decoder returns a CreateTopicRequest exactly when the bytes begin with its wire format and
-- its fields fit.
pub unmarshal_create_topic_request_exact :
    (b : List ℕ) (r : CreateTopicRequest)
    → All IsByte b
    → (unmarshal_create_topic_request b ≡ ok r) ↔ Encodes b r
unmarshal_create_topic_request_exact = decode_exact create_topic_request_codec

-- Every proper prefix of the encoding of a CreateTopicRequest whose fields fit is refused as malformed.
pub unmarshal_create_topic_request_truncated :
    (r : CreateTopicRequest) (front back : List ℕ) (x : ℕ)
    → CreateTopicRequestFits r
    → All IsByte front
    → create_topic_request_layout r [] ≡ front ++ (x ∷ back)
    → unmarshal_create_topic_request front ≡ err malformed
unmarshal_create_topic_request_truncated = decode_truncated create_topic_request_codec
