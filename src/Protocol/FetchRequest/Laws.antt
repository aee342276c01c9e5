-- ===== src/Protocol/FetchRequest/Laws.antt =====
-- pkg/protocol/protocol.go, FetchRequest: the wire format, and the encoder and decoder against it.
use mathlib.Core.Logic.{◌↔◌}
use native.Mathlib.Nat.{mod-eq_of_lt}
use tumbleweed.Base.{
  ℕ, ◌+◌, ◌%◌, ◌^◌, ◌<◌, ◌≡◌, ap, ◌∙◌, List, [], ◌∷◌, ◌++◌, length, All, append_assoc, append-nil,
  ok, err, malformed, ◌>>=◌, arith,
}
use tumbleweed.Bytes.{put_uint, IsByte}
use tumbleweed.Bytes.Buffer.{sizes, copy_fill, write_uint_fill}
use tumbleweed.Bytes.Codec.{Codec, decode-encode, decode_exact, decode_truncated}
use tumbleweed.Bytes.Cursor.{
  At, At-start, At-next, At-uint, check_passes, slice_passes, read_uint_passes,
}
use tumbleweed.Bytes.Ensures.{Ensures, Bytes-start, check-Ensures, slice-Ensures, read_uint-Ensures}
use tumbleweed.Protocol.FetchRequest.{FetchRequest, marshal_fetch_request, unmarshal_fetch_request}

-- The wire format of FetchRequest, and then `tail`.
abbrev pub fetch_request_layout : FetchRequest → List ℕ → List ℕ
fetch_request_layout r tail =
    put_uint 2 (length r.topic % 2 ^ 16)
    ++ (r.topic
        ++ (put_uint 2 (length r.group % 2 ^ 16)
            ++ (r.group
                ++ (put_uint 2 (length r.consumer_id % 2 ^ 16)
                    ++ (r.consumer_id
                        ++ (put_uint 4 r.max_messages
                            ++ (put_uint 4 r.ack_timeout_ms
                                ++ (put_uint 4 r.long_poll_timeout_ms ++ tail))))))))

pub marshal_fetch_request-layout :
    (r : FetchRequest) → marshal_fetch_request r ≡ ok (fetch_request_layout r [])
unfolding marshal_fetch_request
marshal_fetch_request-layout r =
    let n1 = length r.topic in
    let n2 = length r.group in
    let n3 = length r.consumer_id in
    let b1 = [] ++ put_uint 2 (n1 % 2 ^ 16) in
    let b2 = b1 ++ r.topic in
    let b3 = b2 ++ put_uint 2 (n2 % 2 ^ 16) in
    let b4 = b3 ++ r.group in
    let b5 = b4 ++ put_uint 2 (n3 % 2 ^ 16) in
    let b6 = b5 ++ r.consumer_id in
    let b7 = b6 ++ put_uint 4 r.max_messages in
    let b8 = b7 ++ put_uint 4 r.ack_timeout_ms in
    write_uint_fill [] 2 (n1 % 2 ^ 16) (0) (2) (2 + n1 + 2 + n2 + 2 + n3 + 4 + 4 + 4)
      (n1 + 2 + n2 + 2 + n3 + 4 + 4 + 4) _ (omega sizes)
    ∙ copy_fill b1 r.topic (2) (2 + n1) (n1 + 2 + n2 + 2 + n3 + 4 + 4 + 4)
        (2 + n2 + 2 + n3 + 4 + 4 + 4) _ (omega sizes)
    ∙ write_uint_fill b2 2 (n2 % 2 ^ 16) (2 + n1) (2 + n1 + 2) (2 + n2 + 2 + n3 + 4 + 4 + 4)
        (n2 + 2 + n3 + 4 + 4 + 4) _ (omega sizes)
    ∙ copy_fill b3 r.group (2 + n1 + 2) (2 + n1 + 2 + n2) (n2 + 2 + n3 + 4 + 4 + 4)
        (2 + n3 + 4 + 4 + 4) _ (omega sizes)
    ∙ write_uint_fill b4 2 (n3 % 2 ^ 16) (2 + n1 + 2 + n2) (2 + n1 + 2 + n2 + 2)
        (2 + n3 + 4 + 4 + 4) (n3 + 4 + 4 + 4) _ (omega sizes)
    ∙ copy_fill b5 r.consumer_id (2 + n1 + 2 + n2 + 2) (2 + n1 + 2 + n2 + 2 + n3) (n3 + 4 + 4 + 4)
        (4 + 4 + 4) _ (omega sizes)
    ∙ write_uint_fill b6 4 r.max_messages (2 + n1 + 2 + n2 + 2 + n3) (2 + n1 + 2 + n2 + 2 + n3 + 4)
        (4 + 4 + 4) (4 + 4) _ (omega sizes)
    ∙ write_uint_fill b7 4 r.ack_timeout_ms (2 + n1 + 2 + n2 + 2 + n3 + 4)
        (2 + n1 + 2 + n2 + 2 + n3 + 8) (4 + 4) (4) _ (omega sizes)
    ∙ write_uint_fill b8 4 r.long_poll_timeout_ms (2 + n1 + 2 + n2 + 2 + n3 + 8)
        (2 + n1 + 2 + n2 + 2 + n3 + 12) (4) (0) ok (omega sizes)
    ∙ ap ok (simp (append_assoc, append-nil))

-- Each field fits the number of bytes that the format gives it.
pub record FetchRequestFits (r : FetchRequest) : Type 0 where
  pub topic_fits : length r.topic < 2 ^ 16
  pub group_fits : length r.group < 2 ^ 16
  pub consumer_id_fits : length r.consumer_id < 2 ^ 16
  pub max_messages_fits : r.max_messages < 2 ^ 32
  pub ack_timeout_ms_fits : r.ack_timeout_ms < 2 ^ 32
  pub long_poll_timeout_ms_fits : r.long_poll_timeout_ms < 2 ^ 32

pub unmarshal_fetch_request-layout :
    (r : FetchRequest) (tail : List ℕ)
    → FetchRequestFits r
    → unmarshal_fetch_request (fetch_request_layout r tail) ≡ ok r
unfolding unmarshal_fetch_request
unmarshal_fetch_request-layout r tail h =
    let n1 = length r.topic in
    let n2 = length r.group in
    let n3 = length r.consumer_id in
    let r8 = put_uint 4 r.long_poll_timeout_ms ++ tail in
    let r7 = put_uint 4 r.ack_timeout_ms ++ r8 in
    let r6 = put_uint 4 r.max_messages ++ r7 in
    let r5 = r.consumer_id ++ r6 in
    let r4 = put_uint 2 n3 ++ r5 in
    let r3 = r.group ++ r4 in
    let r2 = put_uint 2 n2 ++ r3 in
    let r1 = r.topic ++ r2 in
    let r0 = put_uint 2 n1 ++ r1 in
    let a0 : At r0 0 r0 = At-start r0 in
    let a1 : At r0 (2) r1 = At-uint 2 n1 (2) r1 a0 (omega arith) in
    let a2 : At r0 (2 + n1) r2 = At-next r.topic r2 (2 + n1) a1 (omega arith) in
    let a3 : At r0 (2 + n1 + 2) r3 = At-uint 2 n2 (2 + n1 + 2) r3 a2 (omega arith) in
    let a4 : At r0 (2 + n1 + 2 + n2) r4 = At-next r.group r4 (2 + n1 + 2 + n2) a3 (omega arith) in
    let a5 : At r0 (2 + n1 + 2 + n2 + 2) r5 =
      At-uint 2 n3 (2 + n1 + 2 + n2 + 2) r5 a4 (omega arith) in
    let a6 : At r0 (2 + n1 + 2 + n2 + 2 + n3) r6 =
      At-next r.consumer_id r6 (2 + n1 + 2 + n2 + 2 + n3) a5 (omega arith) in
    let a7 : At r0 (2 + n1 + 2 + n2 + 2 + n3 + 4) r7 =
      At-uint 4 r.max_messages (2 + n1 + 2 + n2 + 2 + n3 + 4) r7 a6 (omega arith) in
    let a8 : At r0 (2 + n1 + 2 + n2 + 2 + n3 + 8) r8 =
      At-uint 4 r.ack_timeout_ms (2 + n1 + 2 + n2 + 2 + n3 + 8) r8 a7 (omega arith) in
    rw (mod-eq_of_lt h.topic_fits, mod-eq_of_lt h.group_fits, mod-eq_of_lt h.consumer_id_fits)
      (check_passes (2) r0 _ a0 (omega sizes)
        ∙ read_uint_passes 2 n1 (2) r1 _ a0 (omega arith) h.topic_fits
        ∙ check_passes (2 + n1 + 2) r2 _ a2 (omega sizes)
        ∙ slice_passes r.topic r2 (2 + n1) _ a1 (omega arith)
        ∙ read_uint_passes 2 n2 (2 + n1 + 2) r3 _ a2 (omega arith) h.group_fits
        ∙ check_passes (2 + n1 + 2 + n2 + 2) r4 _ a4 (omega sizes)
        ∙ slice_passes r.group r4 (2 + n1 + 2 + n2) _ a3 (omega arith)
        ∙ read_uint_passes 2 n3 (2 + n1 + 2 + n2 + 2) r5 _ a4 (omega arith) h.consumer_id_fits
        ∙ check_passes (2 + n1 + 2 + n2 + 2 + n3 + 12) r6 _ a6 (omega sizes)
        ∙ slice_passes r.consumer_id r6 (2 + n1 + 2 + n2 + 2 + n3) _ a5 (omega arith)
        ∙ read_uint_passes 4 r.max_messages (2 + n1 + 2 + n2 + 2 + n3 + 4) r7 _ a6 (omega arith)
            h.max_messages_fits
        ∙ read_uint_passes 4 r.ack_timeout_ms (2 + n1 + 2 + n2 + 2 + n3 + 8) r8 _ a7 (omega arith)
            h.ack_timeout_ms_fits
        ∙ read_uint_passes 4 r.long_poll_timeout_ms (2 + n1 + 2 + n2 + 2 + n3 + 12) tail _ a8
            (omega arith) h.long_poll_timeout_ms_fits)

abbrev pub Encodes : List ℕ → FetchRequest → Type 0
Encodes b r = (tail : List ℕ) × (b ≡ fetch_request_layout r tail) × FetchRequestFits r

pub unmarshal_fetch_request-Ensures :
    (b : List ℕ) → All IsByte b → Ensures (Encodes b) (unmarshal_fetch_request b)
unfolding unmarshal_fetch_request
unmarshal_fetch_request-Ensures b bytes = check-Ensures (Encodes b) (length b) (2) _ λ h1.
    read_uint-Ensures (Encodes b) {i = 0} 2 (2) _ (Bytes-start b bytes) (omega arith) (omega arith)
      λ l1 m0 e0 f0 c0. check-Ensures (Encodes b) (length b) (2 + l1 + 2) _ λ h2.
        slice-Ensures (Encodes b) {i = 2} l1 (2 + l1) _ c0 (omega arith) (omega arith)
          λ s1 m1 e1 z1 c1.
            read_uint-Ensures (Encodes b) {i = 2 + l1} 2 (2 + l1 + 2) _ c1 (omega arith)
              (omega arith)
              λ l2 m2 e2 f2 c2. check-Ensures (Encodes b) (length b) (2 + l1 + 2 + l2 + 2) _ λ h3.
                slice-Ensures (Encodes b) {i = 2 + l1 + 2} l2 (2 + l1 + 2 + l2) _ c2 (omega arith)
                  (omega arith)
                  λ s3 m3 e3 z3 c3.
                    read_uint-Ensures (Encodes b) {i = 2 + l1 + 2 + l2} 2 (2 + l1 + 2 + l2 + 2) _ c3
                      (omega arith) (omega arith)
                      λ l3 m4 e4 f4 c4.
                        check-Ensures (Encodes b) (length b) (2 + l1 + 2 + l2 + 2 + l3 + 12) _ λ h4.
                          slice-Ensures (Encodes b) {i = 2 + l1 + 2 + l2 + 2} l3
                            (2 + l1 + 2 + l2 + 2 + l3) _ c4 (omega arith) (omega arith)
                            λ s5 m5 e5 z5 c5.
                              read_uint-Ensures (Encodes b) {i = 2 + l1 + 2 + l2 + 2 + l3} 4
                                (2 + l1 + 2 + l2 + 2 + l3 + 4) _ c5 (omega arith) (omega arith)
                                λ v6 m6 e6 f6 c6.
                                  read_uint-Ensures (Encodes b) {i = 2 + l1 + 2 + l2 + 2 + l3 + 4} 4
                                    (2 + l1 + 2 + l2 + 2 + l3 + 8) _ c6 (omega arith) (omega arith)
                                    λ v7 m7 e7 f7 c7.
                                      read_uint-Ensures (Encodes b)
                                        {i = 2 + l1 + 2 + l2 + 2 + l3 + 8} 4
                                        (2 + l1 + 2 + l2 + 2 + l3 + 12) _ c7 (omega arith)
                                        (omega arith)
                                        λ v8 m8 e8 f8 c8. (
                                          m8,
                                          rw
                                              (
                                                z1,
                                                z3,
                                                z5,
                                                mod-eq_of_lt f0,
                                                mod-eq_of_lt f2,
                                                mod-eq_of_lt f4,
                                              )
                                              (simp (e0, e1, e2, e3, e4, e5, e6, e7, e8)),
                                          omega arith,
                                        )

abbrev pub fetch_request_codec : Codec FetchRequest
fetch_request_codec = record {
  layout = fetch_request_layout;
  Sized = FetchRequestFits;
  encode = marshal_fetch_request;
  decode = unmarshal_fetch_request;
  encode-layout = marshal_fetch_request-layout;
  layout-append = λ r tail more. simp append_assoc;
  decode-layout = unmarshal_fetch_request-layout;
  decode_ensures = unmarshal_fetch_request-Ensures;
}

-- A FetchRequest whose fields fit is decoded as it was encoded.
pub unmarshal-marshal_fetch_request :
    (r : FetchRequest)
    → FetchRequestFits r
    → (marshal_fetch_request r >>= unmarshal_fetch_request) ≡ ok r
unmarshal-marshal_fetch_request = decode-encode fetch_request_codec

-- On any list of bytes the decoder returns a FetchRequest exactly when the bytes begin with its wire format and
-- its fields fit.
pub unmarshal_fetch_request_exact :
    (b : List ℕ) (r : FetchRequest)
    → All IsByte b
    → (unmarshal_fetch_request b ≡ ok r) ↔ Encodes b r
unmarshal_fetch_request_exact = decode_exact fetch_request_codec

-- Every proper prefix of the encoding of a FetchRequest whose fields fit is refused as malformed.
pub unmarshal_fetch_request_truncated :
    (r : FetchRequest) (front back : List ℕ) (x : ℕ)
    → FetchRequestFits r
    → All IsByte front
    → fetch_request_layout r [] ≡ front ++ (x ∷ back)
    → unmarshal_fetch_request front ≡ err malformed
unmarshal_fetch_request_truncated = decode_truncated fetch_request_codec
