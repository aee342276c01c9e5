-- ===== src/Protocol/AckRequest/Laws.antt =====
-- pkg/protocol/protocol.go, AckRequest: the wire format, and the encoder and decoder against it.
use mathlib.Core.Logic.{◌↔◌}
use native.Mathlib.Nat.{mod-eq_of_lt}
use tumbleweed.Base.{
  ℕ, ◌+◌, ◌%◌, ◌^◌, ◌<◌, ◌≡◌, refl, ap, ◌∙◌, List, [], ◌∷◌, ◌++◌, length, All, append_assoc,
  append-nil, ok, err, malformed, ◌>>=◌, arith,
}
use tumbleweed.Bytes.{put_uint, IsByte}
use tumbleweed.Bytes.Buffer.{sizes, copy_fill, write_uint_fill}
use tumbleweed.Bytes.Codec.{Codec, decode-encode, decode_exact, decode_truncated}
use tumbleweed.Bytes.Cursor.{
  At, At-start, At-next, At-uint, check_passes, slice_passes, read_uint_passes,
}
use tumbleweed.Bytes.Ensures.{Ensures, Bytes-start, check-Ensures, slice-Ensures, read_uint-Ensures}
use tumbleweed.Protocol.AckRequest.{AckRequest, marshal_ack_request, unmarshal_ack_request}

-- The wire format of AckRequest, and then `tail`.
abbrev pub ack_request_layout : AckRequest → List ℕ → List ℕ
ack_request_layout r tail =
    put_uint 2 (length r.topic % 2 ^ 16)
    ++ (r.topic
        ++ (put_uint 2 (length r.group % 2 ^ 16) ++ (r.group ++ (put_uint 8 r.offset ++ tail))))

pub marshal_ack_request-layout :
    (r : AckRequest) → marshal_ack_request r ≡ ok (ack_request_layout r [])
unfolding marshal_ack_request
marshal_ack_request-layout r =
    let n1 = length r.topic in
    let n2 = length r.group in
    let b1 = [] ++ put_uint 2 (n1 % 2 ^ 16) in
    let b2 = b1 ++ r.topic in
    let b3 = b2 ++ put_uint 2 (n2 % 2 ^ 16) in
    let b4 = b3 ++ r.group in
    write_uint_fill [] 2 (n1 % 2 ^ 16) (0) (2) (2 + n1 + 2 + n2 + 8) (n1 + 2 + n2 + 8) _
      (omega sizes)
    ∙ copy_fill b1 r.topic (2) (2 + n1) (n1 + 2 + n2 + 8) (2 + n2 + 8) _ (omega sizes)
    ∙ write_uint_fill b2 2 (n2 % 2 ^ 16) (2 + n1) (2 + n1 + 2) (2 + n2 + 8) (n2 + 8) _ (omega sizes)
    ∙ copy_fill b3 r.group (2 + n1 + 2) (2 + n1 + 2 + n2) (n2 + 8) (8) _ (omega sizes)
    ∙ write_uint_fill b4 8 r.offset (2 + n1 + 2 + n2) (2 + n1 + 2 + n2 + 8) (8) (0) ok (omega sizes)
    ∙ ap ok (simp (append_assoc, append-nil))

-- Each field fits the number of bytes that the format gives it.
pub record AckRequestFits (r : AckRequest) : Type 0 where
  pub topic_fits : length r.topic < 2 ^ 16
  pub group_fits : length r.group < 2 ^ 16
  pub offset_fits : r.offset < 2 ^ 64

pub unmarshal_ack_request-layout :
    (r : AckRequest) (tail : List ℕ)
    → AckRequestFits r
    → unmarshal_ack_request (ack_request_layout r tail) ≡ ok r
unfolding unmarshal_ack_request
unmarshal_ack_request-layout r tail h =
    let n1 = length r.topic in
    let n2 = length r.group in
    let r4 = put_uint 8 r.offset ++ tail in
    let r3 = r.group ++ r4 in
    let r2 = put_uint 2 n2 ++ r3 in
    let r1 = r.topic ++ r2 in
    let r0 = put_uint 2 n1 ++ r1 in
    let a0 : At r0 0 r0 = At-start r0 in
    let a1 : At r0 (2) r1 = At-uint 2 n1 (2) r1 a0 refl in
    let a2 : At r0 (2 + n1) r2 = At-next r.topic r2 (2 + n1) a1 refl in
    let a3 : At r0 (2 + n1 + 2) r3 = At-uint 2 n2 (2 + n1 + 2) r3 a2 refl in
    let a4 : At r0 (2 + n1 + 2 + n2) r4 = At-next r.group r4 (2 + n1 + 2 + n2) a3 refl in
    rw (mod-eq_of_lt h.topic_fits, mod-eq_of_lt h.group_fits)
      (check_passes (2) r0 _ a0 (omega sizes)
        ∙ read_uint_passes 2 n1 (2) r1 _ a0 refl h.topic_fits
        ∙ check_passes (2 + n1 + 2) r2 _ a2 (omega sizes)
        ∙ slice_passes r.topic r2 (2 + n1) _ a1 refl
        ∙ read_uint_passes 2 n2 (2 + n1 + 2) r3 _ a2 refl h.group_fits
        ∙ check_passes (2 + n1 + 2 + n2 + 8) r4 _ a4 (omega sizes)
        ∙ slice_passes r.group r4 (2 + n1 + 2 + n2) _ a3 refl
        ∙ read_uint_passes 8 r.offset (2 + n1 + 2 + n2 + 8) tail _ a4 refl h.offset_fits)

abbrev pub Encodes : List ℕ → AckRequest → Type 0
Encodes b r = (tail : List ℕ) × (b ≡ ack_request_layout r tail) × AckRequestFits r

pub unmarshal_ack_request-Ensures :
    (b : List ℕ) → All IsByte b → Ensures (Encodes b) (unmarshal_ack_request b)
unfolding unmarshal_ack_request
unmarshal_ack_request-Ensures b bytes = check-Ensures (Encodes b) (length b) (2) _ λ h1.
    read_uint-Ensures (Encodes b) {i = 0} 2 (2) _ (Bytes-start b bytes) refl (omega arith)
      λ l1 m0 e0 f0 c0. check-Ensures (Encodes b) (length b) (2 + l1 + 2) _ λ h2.
        slice-Ensures (Encodes b) {i = 2} l1 (2 + l1) _ c0 refl (omega arith) λ s1 m1 e1 z1 c1.
          read_uint-Ensures (Encodes b) {i = 2 + l1} 2 (2 + l1 + 2) _ c1 refl (omega arith)
            λ l2 m2 e2 f2 c2. check-Ensures (Encodes b) (length b) (2 + l1 + 2 + l2 + 8) _ λ h3.
              slice-Ensures (Encodes b) {i = 2 + l1 + 2} l2 (2 + l1 + 2 + l2) _ c2 refl
                (omega arith)
                λ s3 m3 e3 z3 c3.
                  read_uint-Ensures (Encodes b) {i = 2 + l1 + 2 + l2} 8 (2 + l1 + 2 + l2 + 8) _ c3
                    refl (omega arith)
                    λ v4 m4 e4 f4 c4. (
                      m4,
                      rw (z1, z3, mod-eq_of_lt f0, mod-eq_of_lt f2) (simp (e0, e1, e2, e3, e4)),
                      omega arith,
                    )

abbrev pub ack_request_codec : Codec AckRequest
ack_request_codec = record {
  layout = ack_request_layout;
  Sized = AckRequestFits;
  encode = marshal_ack_request;
  decode = unmarshal_ack_request;
  encode-layout = marshal_ack_request-layout;
  layout-append = λ r tail more. simp append_assoc;
  decode-layout = unmarshal_ack_request-layout;
  decode_ensures = unmarshal_ack_request-Ensures;
}

-- An AckRequest whose fields fit is decoded as it was encoded.
pub unmarshal-marshal_ack_request :
    (r : AckRequest) → AckRequestFits r → (marshal_ack_request r >>= unmarshal_ack_request) ≡ ok r
unmarshal-marshal_ack_request = decode-encode ack_request_codec

-- On any list of bytes the decoder returns an AckRequest exactly when the bytes begin with its wire format and
-- its fields fit.
pub unmarshal_ack_request_exact :
    (b : List ℕ) (r : AckRequest) → All IsByte b → (unmarshal_ack_request b ≡ ok r) ↔ Encodes b r
unmarshal_ack_request_exact = decode_exact ack_request_codec

-- Every proper prefix of the encoding of an AckRequest whose fields fit is refused as malformed.
pub unmarshal_ack_request_truncated :
    (r : AckRequest) (front back : List ℕ) (x : ℕ)
    → AckRequestFits r
    → All IsByte front
    → ack_request_layout r [] ≡ front ++ (x ∷ back)
    → unmarshal_ack_request front ≡ err malformed
unmarshal_ack_request_truncated = decode_truncated ack_request_codec
