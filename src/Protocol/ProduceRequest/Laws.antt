-- ===== src/Protocol/ProduceRequest/Laws.antt =====
-- pkg/protocol/protocol.go, ProduceRequest: the wire format, and the encoder and decoder against it.
use mathlib.Core.Logic.{◌↔◌}
use native.Mathlib.Nat.{mod-eq_of_lt}
use tumbleweed.Base.{
  ℕ, ◌+◌, ◌%◌, ◌^◌, ◌<◌, ◌≡◌, refl, ap, ◌∙◌, List, [], ◌∷◌, ◌++◌, length, All, append_assoc,
  append-nil, ok, err, malformed, ◌>>=◌, arith,
}
use tumbleweed.Bytes.{put_uint, IsByte}
use tumbleweed.Bytes.Buffer.{sizes, copy_fill, write_uint_fill}
use tumbleweed.Bytes.Codec.{Codec, decode-encode, decode_exact, decode_truncated}
use tumbleweed.Bytes.Cursor.{
  At, At-start, At-next, At-uint, check_passes, slice_passes, read_uint_passes,
}
use tumbleweed.Bytes.Ensures.{Ensures, Bytes-start, check-Ensures, slice-Ensures, read_uint-Ensures}
use tumbleweed.Protocol.ProduceRequest.{
  ProduceRequest, marshal_produce_request, unmarshal_produce_request,
}

-- The wire format of ProduceRequest, and then `tail`.
abbrev pub produce_request_layout : ProduceRequest → List ℕ → List ℕ
produce_request_layout r tail =
    put_uint 2 (length r.topic % 2 ^ 16)
    ++ (r.topic
        ++ (put_uint 4 (length r.key % 2 ^ 32)
            ++ (r.key ++ (put_uint 4 (length r.value % 2 ^ 32) ++ (r.value ++ tail)))))

pub marshal_produce_request-layout :
    (r : ProduceRequest) → marshal_produce_request r ≡ ok (produce_request_layout r [])
unfolding marshal_produce_request
marshal_produce_request-layout r =
    let n1 = length r.topic in
    let n2 = length r.key in
    let n3 = length r.value in
    let b1 = [] ++ put_uint 2 (n1 % 2 ^ 16) in
    let b2 = b1 ++ r.topic in
    let b3 = b2 ++ put_uint 4 (n2 % 2 ^ 32) in
    let b4 = b3 ++ r.key in
    let b5 = b4 ++ put_uint 4 (n3 % 2 ^ 32) in
    write_uint_fill [] 2 (n1 % 2 ^ 16) (0) (2) (2 + n1 + 4 + n2 + 4 + n3) (n1 + 4 + n2 + 4 + n3) _
      (omega sizes)
    ∙ copy_fill b1 r.topic (2) (2 + n1) (n1 + 4 + n2 + 4 + n3) (4 + n2 + 4 + n3) _ (omega sizes)
    ∙ write_uint_fill b2 4 (n2 % 2 ^ 32) (2 + n1) (2 + n1 + 4) (4 + n2 + 4 + n3) (n2 + 4 + n3) _
        (omega sizes)
    ∙ copy_fill b3 r.key (2 + n1 + 4) (2 + n1 + 4 + n2) (n2 + 4 + n3) (4 + n3) _ (omega sizes)
    ∙ write_uint_fill b4 4 (n3 % 2 ^ 32) (2 + n1 + 4 + n2) (2 + n1 + 4 + n2 + 4) (4 + n3) (n3) _
        (omega sizes)
    ∙ copy_fill b5 r.value (2 + n1 + 4 + n2 + 4) (2 + n1 + 4 + n2 + 4 + n3) (n3) (0) ok
        (omega sizes)
    ∙ ap ok (simp (append_assoc, append-nil))

-- Each field fits the number of bytes that the format gives it.
pub record ProduceRequestFits (r : ProduceRequest) : Type 0 where
  pub topic_fits : length r.topic < 2 ^ 16
  pub key_fits : length r.key < 2 ^ 32
  pub value_fits : length r.value < 2 ^ 32

pub unmarshal_produce_request-layout :
    (r : ProduceRequest) (tail : List ℕ)
    → ProduceRequestFits r
    → unmarshal_produce_request (produce_request_layout r tail) ≡ ok r
unfolding unmarshal_produce_request
unmarshal_produce_request-layout r tail h =
    let n1 = length r.topic in
    let n2 = length r.key in
    let n3 = length r.value in
    let r5 = r.value ++ tail in
    let r4 = put_uint 4 n3 ++ r5 in
    let r3 = r.key ++ r4 in
    let r2 = put_uint 4 n2 ++ r3 in
    let r1 = r.topic ++ r2 in
    let r0 = put_uint 2 n1 ++ r1 in
    let a0 : At r0 0 r0 = At-start r0 in
    let a1 : At r0 (2) r1 = At-uint 2 n1 (2) r1 a0 refl in
    let a2 : At r0 (2 + n1) r2 = At-next r.topic r2 (2 + n1) a1 refl in
    let a3 : At r0 (2 + n1 + 4) r3 = At-uint 4 n2 (2 + n1 + 4) r3 a2 refl in
    let a4 : At r0 (2 + n1 + 4 + n2) r4 = At-next r.key r4 (2 + n1 + 4 + n2) a3 refl in
    let a5 : At r0 (2 + n1 + 4 + n2 + 4) r5 = At-uint 4 n3 (2 + n1 + 4 + n2 + 4) r5 a4 refl in
    rw (mod-eq_of_lt h.topic_fits, mod-eq_of_lt h.key_fits, mod-eq_of_lt h.value_fits)
      (check_passes (2) r0 _ a0 (omega sizes)
        ∙ read_uint_passes 2 n1 (2) r1 _ a0 refl h.topic_fits
        ∙ check_passes (2 + n1 + 4) r2 _ a2 (omega sizes)
        ∙ slice_passes r.topic r2 (2 + n1) _ a1 refl
        ∙ read_uint_passes 4 n2 (2 + n1 + 4) r3 _ a2 refl h.key_fits
        ∙ check_passes (2 + n1 + 4 + n2 + 4) r4 _ a4 (omega sizes)
        ∙ slice_passes r.key r4 (2 + n1 + 4 + n2) _ a3 refl
        ∙ read_uint_passes 4 n3 (2 + n1 + 4 + n2 + 4) r5 _ a4 refl h.value_fits
        ∙ check_passes (2 + n1 + 4 + n2 + 4 + n3) r5 _ a5 (omega sizes)
        ∙ slice_passes r.value tail (2 + n1 + 4 + n2 + 4 + n3) _ a5 refl)

abbrev pub Encodes : List ℕ → ProduceRequest → Type 0
Encodes b r = (tail : List ℕ) × (b ≡ produce_request_layout r tail) × ProduceRequestFits r

pub unmarshal_produce_request-Ensures :
    (b : List ℕ) → All IsByte b → Ensures (Encodes b) (unmarshal_produce_request b)
unfolding unmarshal_produce_request
unmarshal_produce_request-Ensures b bytes = check-Ensures (Encodes b) (length b) (2) _ λ h1.
    read_uint-Ensures (Encodes b) {i = 0} 2 (2) _ (Bytes-start b bytes) refl (omega arith)
      λ l1 m0 e0 f0 c0. check-Ensures (Encodes b) (length b) (2 + l1 + 4) _ λ h2.
        slice-Ensures (Encodes b) {i = 2} l1 (2 + l1) _ c0 refl (omega arith) λ s1 m1 e1 z1 c1.
          read_uint-Ensures (Encodes b) {i = 2 + l1} 4 (2 + l1 + 4) _ c1 refl (omega arith)
            λ l2 m2 e2 f2 c2. check-Ensures (Encodes b) (length b) (2 + l1 + 4 + l2 + 4) _ λ h3.
              slice-Ensures (Encodes b) {i = 2 + l1 + 4} l2 (2 + l1 + 4 + l2) _ c2 refl
                (omega arith)
                λ s3 m3 e3 z3 c3.
                  read_uint-Ensures (Encodes b) {i = 2 + l1 + 4 + l2} 4 (2 + l1 + 4 + l2 + 4) _ c3
                    refl (omega arith)
                    λ l3 m4 e4 f4 c4.
                      check-Ensures (Encodes b) (length b) (2 + l1 + 4 + l2 + 4 + l3) _ λ h4.
                        slice-Ensures (Encodes b) {i = 2 + l1 + 4 + l2 + 4} l3
                          (2 + l1 + 4 + l2 + 4 + l3) _ c4 refl (omega arith)
                          λ s5 m5 e5 z5 c5. (
                            m5,
                            rw (z1, z3, z5, mod-eq_of_lt f0, mod-eq_of_lt f2, mod-eq_of_lt f4)
                                (simp (e0, e1, e2, e3, e4, e5)),
                            omega arith,
                          )

abbrev pub produce_request_codec : Codec ProduceRequest
produce_request_codec = record {
  layout = produce_request_layout;
  Sized = ProduceRequestFits;
  encode = marshal_produce_request;
  decode = unmarshal_produce_request;
  encode-layout = marshal_produce_request-layout;
  layout-append = λ r tail more. simp append_assoc;
  decode-layout = unmarshal_produce_request-layout;
  decode_ensures = unmarshal_produce_request-Ensures;
}

-- A ProduceRequest whose fields fit is decoded as it was encoded.
pub unmarshal-marshal_produce_request :
    (r : ProduceRequest)
    → ProduceRequestFits r
    → (marshal_produce_request r >>= unmarshal_produce_request) ≡ ok r
unmarshal-marshal_produce_request = decode-encode produce_request_codec

-- On any list of bytes the decoder returns a ProduceRequest exactly when the bytes begin with its wire format and
-- its fields fit.
pub unmarshal_produce_request_exact :
    (b : List ℕ) (r : ProduceRequest)
    → All IsByte b
    → (unmarshal_produce_request b ≡ ok r) ↔ Encodes b r
unmarshal_produce_request_exact = decode_exact produce_request_codec

-- Every proper prefix of the encoding of a ProduceRequest whose fields fit is refused as malformed.
pub unmarshal_produce_request_truncated :
    (r : ProduceRequest) (front back : List ℕ) (x : ℕ)
    → ProduceRequestFits r
    → All IsByte front
    → produce_request_layout r [] ≡ front ++ (x ∷ back)
    → unmarshal_produce_request front ≡ err malformed
unmarshal_produce_request_truncated = decode_truncated produce_request_codec
