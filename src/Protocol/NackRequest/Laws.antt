-- ===== src/Protocol/NackRequest/Laws.antt =====
-- pkg/protocol/protocol.go, NackRequest: the wire format, and the encoder and decoder against it.
use mathlib.Core.Logic.{◌↔◌}
use native.Mathlib.Nat.{mod-eq_of_lt}
use tumbleweed.Base.{
  ℕ, ◌+◌, ◌%◌, ◌^◌, ◌<◌, ◌≡◌, refl, ap, ◌∙◌, List, [], ◌∷◌, ◌++◌, length, All, append_assoc,
  append-nil, ok, err, malformed, ◌>>=◌, arith,
}
use tumbleweed.Bytes.{put_uint, IsByte}
use tumbleweed.Bytes.Buffer.{sizes, copy_fill, write_uint_fill}
use tumbleweed.Bytes.Codec.{Codec, decode-encode, decode_exact, decode_truncated}
use tumbleweed.Bytes.Cursor.{
  At, At-start, At-next, At-uint, check_passes, slice_passes, read_uint_passes,
}
use tumbleweed.Bytes.Ensures.{Ensures, Bytes-start, check-Ensures, slice-Ensures, read_uint-Ensures}
use tumbleweed.Protocol.NackRequest.{NackRequest, marshal_nack_request, unmarshal_nack_request}

-- The wire format of NackRequest, and then `tail`.
abbrev pub nack_request_layout : NackRequest → List ℕ → List ℕ
nack_request_layout r tail =
    put_uint 2 (length r.topic % 2 ^ 16)
    ++ (r.topic
        ++ (put_uint 2 (length r.group % 2 ^ 16) ++ (r.group ++ (put_uint 8 r.offset ++ tail))))

pub marshal_nack_request-layout :
    (r : NackRequest) → marshal_nack_request r ≡ ok (nack_request_layout r [])
unfolding marshal_nack_request
marshal_nack_request-layout r =
    let n1 = length r.topic in
    let n2 = length r.group in
    let b1 = [] ++ put_uint 2 (n1 % 2 ^ 16) in
    let b2 = b1 ++ r.topic in
    let b3 = b2 ++ put_uint 2 (n2 % 2 ^ 16) in
    let b4 = b3 ++ r.group in
    write_uint_fill [] 2 (n1 % 2 ^ 16) (0) (2) (2 + n1 + 2 + n2 + 8) (n1 + 2 + n2 + 8) _
      (omega sizes)
    ∙ copy_fill b1 r.topic (2) (2 + n1) (n1 + 2 + n2 + 8) (2 + n2 + 8) _ (omega sizes)
    ∙ write_uint_fill b2 2 (n2 % 2 ^ 16) (2 + n1) (2 + n1 + 2) (2 + n2 + 8) (n2 + 8) _ (omega sizes)
    ∙ copy_fill b3 r.group (2 + n1 + 2) (2 + n1 + 2 + n2) (n2 + 8) (8) _ (omega sizes)
    ∙ write_uint_fill b4 8 r.offset (2 + n1 + 2 + n2) (2 + n1 + 2 + n2 + 8) (8) (0) ok (omega sizes)
    ∙ ap ok (simp (append_assoc, append-nil))

-- Each field fits the number of bytes that the format gives it.
pub record NackRequestFits (r : NackRequest) : Type 0 where
  pub topic_fits : length r.topic < 2 ^ 16
  pub group_fits : length r.group < 2 ^ 16
  pub offset_fits : r.offset < 2 ^ 64

pub unmarshal_nack_request-layout :
    (r : NackRequest) (tail : List ℕ)
    → NackRequestFits r
    → unmarshal_nack_request (nack_request_layout r tail) ≡ ok r
unfolding unmarshal_nack_request
unmarshal_nack_request-layout r tail h =
    let n1 = length r.topic in
    let n2 = length r.group in
    let r4 = put_uint 8 r.offset ++ tail in
    let r3 = r.group ++ r4 in
    let r2 = put_uint 2 n2 ++ r3 in
    let r1 = r.topic ++ r2 in
    let r0 = put_uint 2 n1 ++ r1 in
    let a0 : At r0 0 r0 = At-start r0 in
    let a1 : At r0 (2) r1 = At-uint 2 n1 (2) r1 a0 refl in
    let a2 : At r0 (2 + n1) r2 = At-next r.topic r2 (2 + n1) a1 refl in
    let a3 : At r0 (2 + n1 + 2) r3 = At-uint 2 n2 (2 + n1 + 2) r3 a2 refl in
    let a4 : At r0 (2 + n1 + 2 + n2) r4 = At-next r.group r4 (2 + n1 + 2 + n2) a3 refl in
    rw (mod-eq_of_lt h.topic_fits, mod-eq_of_lt h.group_fits)
      (check_passes (2) r0 _ a0 (omega sizes)
        ∙ read_uint_passes 2 n1 (2) r1 _ a0 refl h.topic_fits
        ∙ check_passes (2 + n1 + 2) r2 _ a2 (omega sizes)
        ∙ slice_passes r.topic r2 (2 + n1) _ a1 refl
        ∙ read_uint_passes 2 n2 (2 + n1 + 2) r3 _ a2 refl h.group_fits
        ∙ check_passes (2 + n1 + 2 + n2 + 8) r4 _ a4 (omega sizes)
        ∙ slice_passes r.group r4 (2 + n1 + 2 + n2) _ a3 refl
        ∙ read_uint_passes 8 r.offset (2 + n1 + 2 + n2 + 8) tail _ a4 refl h.offset_fits)

abbrev pub Encodes : List ℕ → NackRequest → Type 0
Encodes b r = (tail : List ℕ) × (b ≡ nack_request_layout r tail) × NackRequestFits r

pub unmarshal_nack_request-Ensures :
    (b : List ℕ) → All IsByte b → Ensures (Encodes b) (unmarshal_nack_request b)
unfolding unmarshal_nack_request
unmarshal_nack_request-Ensures b bytes = check-Ensures (Encodes b) (length b) (2) _ λ h1.
    read_uint-Ensures (Encodes b) {i = 0} 2 (2) _ (Bytes-start b bytes) refl (omega arith)
      λ l1 m0 e0 f0 c0. check-Ensures (Encodes b) (length b) (2 + l1 + 2) _ λ h2.
        slice-Ensures (Encodes b) {i = 2} l1 (2 + l1) _ c0 refl (omega arith) λ s1 m1 e1 z1 c1.
          read_uint-Ensures (Encodes b) {i = 2 + l1} 2 (2 + l1 + 2) _ c1 refl (omega arith)
            λ l2 m2 e2 f2 c2. check-Ensures (Encodes b) (length b) (2 + l1 + 2 + l2 + 8) _ λ h3.
              slice-Ensures (Encodes b) {i = 2 + l1 + 2} l2 (2 + l1 + 2 + l2) _ c2 refl
                (omega arith)
                λ s3 m3 e3 z3 c3.
                  read_uint-Ensures (Encodes b) {i = 2 + l1 + 2 + l2} 8 (2 + l1 + 2 + l2 + 8) _ c3
                    refl (omega arith)
                    λ v4 m4 e4 f4 c4. (
                      m4,
                      rw (z1, z3, mod-eq_of_lt f0, mod-eq_of_lt f2) (simp (e0, e1, e2, e3, e4)),
                      omega arith,
                    )

abbrev pub nack_request_codec : Codec NackRequest
nack_request_codec = record {
  layout = nack_request_layout;
  Sized = NackRequestFits;
  encode = marshal_nack_request;
  decode = unmarshal_nack_request;
  encode-layout = marshal_nack_request-layout;
  layout-append = λ r tail more. simp append_assoc;
  decode-layout = unmarshal_nack_request-layout;
  decode_ensures = unmarshal_nack_request-Ensures;
}

-- A NackRequest whose fields fit is decoded as it was encoded.
pub unmarshal-marshal_nack_request :
    (r : NackRequest)
    → NackRequestFits r
    → (marshal_nack_request r >>= unmarshal_nack_request) ≡ ok r
unmarshal-marshal_nack_request = decode-encode nack_request_codec

-- On any list of bytes the decoder returns a NackRequest exactly when the bytes begin with its wire format and
-- its fields fit.
pub unmarshal_nack_request_exact :
    (b : List ℕ) (r : NackRequest) → All IsByte b → (unmarshal_nack_request b ≡ ok r) ↔ Encodes b r
unmarshal_nack_request_exact = decode_exact nack_request_codec

-- Every proper prefix of the encoding of a NackRequest whose fields fit is refused as malformed.
pub unmarshal_nack_request_truncated :
    (r : NackRequest) (front back : List ℕ) (x : ℕ)
    → NackRequestFits r
    → All IsByte front
    → nack_request_layout r [] ≡ front ++ (x ∷ back)
    → unmarshal_nack_request front ≡ err malformed
unmarshal_nack_request_truncated = decode_truncated nack_request_codec
