-- ===== src/Protocol/FetchResponse/Decode.antt =====
-- pkg/protocol/protocol.go, FetchResponse: the decoder against the wire format.
use native.Mathlib.Nat.{mod-eq_of_lt}
use tumbleweed.Base.{
  ℕ, zero, suc, ◌+◌, ◌^◌, ◌<◌, ◌≡◌, refl, ap, ◌∙◌, List, [], ◌∷◌, ◌++◌, length, All, ok, arith,
}
use tumbleweed.Bytes.{put_uint, IsByte}
use tumbleweed.Bytes.Buffer.{sizes}
use tumbleweed.Bytes.Cursor.{
  At, At-start, At-next, At-uint, check_passes, slice_passes, read_uint_passes,
}
use tumbleweed.Bytes.Ensures.{
  Bytes, Ensures, Bytes-start, check-Ensures, slice-Ensures, read_uint-Ensures, bind-Ensures,
}
use tumbleweed.Protocol.FetchResponse.{
  Message, FetchResponse, unmarshal_messages, unmarshal_fetch_response,
}
use tumbleweed.Protocol.FetchResponse.Encode.{messages_layout, fetch_response_layout}

-- Each field fits the number of bytes that the format gives it.
pub record MessageFits (m : Message) : Type 0 where
  pub offset_fits : m.offset < 2 ^ 64
  pub timestamp_fits : m.timestamp < 2 ^ 64
  pub key_fits : length m.key < 2 ^ 32
  pub value_fits : length m.value < 2 ^ 32

pub record FetchResponseFits (r : FetchResponse) : Type 0 where
  pub count_fits : length r.messages < 2 ^ 32
  pub all_fit : All MessageFits r.messages

unmarshal_messages-layout :
    (ms : List Message) (b tail : List ℕ) (i : ℕ)
    → All MessageFits ms
    → At b i (messages_layout ms tail)
    → unmarshal_messages (length ms) b i ≡ ok ms
unfolding unmarshal_messages
unmarshal_messages-layout [] b tail i h a = refl
unmarshal_messages-layout (m ∷ ms) b tail i h a0 =
    let x = length m.key in
    let y = length m.value in
    let r6 = messages_layout ms tail in
    let r5 = m.value ++ r6 in
    let r4 = put_uint 4 y ++ r5 in
    let r3 = m.key ++ r4 in
    let r2 = put_uint 4 x ++ r3 in
    let r1 = put_uint 8 m.timestamp ++ r2 in
    let r0 = put_uint 8 m.offset ++ r1 in
    let j = i + 20 + x in
    let b0 : At b i r0 = rw (mod-eq_of_lt h.0.key_fits, mod-eq_of_lt h.0.value_fits) at a0 in
    let a1 : At b (i + 8) r1 = At-uint 8 m.offset (i + 8) r1 b0 refl in
    let a2 : At b (i + 16) r2 = At-uint 8 m.timestamp (i + 16) r2 a1 (omega arith) in
    let a3 : At b (i + 20) r3 = At-uint 4 x (i + 20) r3 a2 (omega arith) in
    let a4 : At b j r4 = At-next m.key r4 j a3 refl in
    let a5 : At b (j + 4) r5 = At-uint 4 y (j + 4) r5 a4 refl in
    let a6 : At b (j + 4 + y) r6 = At-next m.value r6 (j + 4 + y) a5 refl in
    check_passes (i + 20) r0 _ b0 (omega sizes)
    ∙ read_uint_passes 8 m.offset (i + 8) r1 _ b0 refl h.0.offset_fits
    ∙ read_uint_passes 8 m.timestamp (i + 16) r2 _ a1 (omega arith) h.0.timestamp_fits
    ∙ read_uint_passes 4 x (i + 20) r3 _ a2 (omega arith) h.0.key_fits
    ∙ check_passes (j + 4) r4 _ a4 (omega sizes)
    ∙ slice_passes m.key r4 j _ a3 refl
    ∙ read_uint_passes 4 y (j + 4) r5 _ a4 refl h.0.value_fits
    ∙ check_passes (j + 4 + y) r5 _ a5 (omega sizes)
    ∙ slice_passes m.value r6 (j + 4 + y) _ a5 refl
    ∙ rw (unmarshal_messages-layout ms b tail (j + 4 + y) h.1 a6)

pub unmarshal_fetch_response-layout :
    (r : FetchResponse) (tail : List ℕ)
    → FetchResponseFits r
    → unmarshal_fetch_response (fetch_response_layout r tail) ≡ ok r
unfolding unmarshal_fetch_response
unmarshal_fetch_response-layout r tail h =
    let n = length r.messages in
    let r1 = messages_layout r.messages tail in
    let r0 = put_uint 4 n ++ r1 in
    let a0 : At r0 0 r0 = At-start r0 in
    rw (mod-eq_of_lt h.count_fits) (
      check_passes 4 r0 _ a0 (omega sizes)
      ∙ read_uint_passes 4 n 4 r1 _ a0 refl h.count_fits
      ∙ rw (unmarshal_messages-layout r.messages r0 tail 4 h.all_fit (At-uint 4 n 4 r1 a0 refl)))

-- The bytes at hand begin with `n` messages, which are `ms`.
abbrev Begins : ℕ → List ℕ → List Message → Type 0
Begins n rest ms =
    (tail : List ℕ) × (rest ≡ messages_layout ms tail) × All MessageFits ms × (length ms ≡ n)

unmarshal_messages-Ensures :
    (n : ℕ) (b rest : List ℕ) (i : ℕ)
    → Bytes b i rest
    → Ensures (Begins n rest) (unmarshal_messages n b i)
unfolding unmarshal_messages
unmarshal_messages-Ensures zero b rest i c = (rest, refl, tt, refl)
unmarshal_messages-Ensures (suc n) b rest i c =
    let P = Begins (suc n) rest in
    check-Ensures P (length b) (i + 20) _ λ h1.
      read_uint-Ensures P {i = i} 8 (i + 8) _ c refl (omega arith) λ offset m0 e0 f0 c0.
        read_uint-Ensures P {i = i + 8} 8 (i + 16) _ c0 (omega arith) (omega arith)
          λ time m1 e1 f1 c1.
            read_uint-Ensures P {i = i + 16} 4 (i + 20) _ c1 (omega arith) (omega arith)
              λ x m2 e2 f2 c2. check-Ensures P (length b) (i + 20 + x + 4) _ λ h2.
                slice-Ensures P {i = i + 20} x (i + 20 + x) _ c2 refl (omega arith)
                  λ key m3 e3 z3 c3.
                    read_uint-Ensures P {i = i + 20 + x} 4 (i + 20 + x + 4) _ c3 refl h2
                      λ y m4 e4 f4 c4. check-Ensures P (length b) (i + 20 + x + 4 + y) _ λ h3.
                        slice-Ensures P {i = i + 20 + x + 4} y (i + 20 + x + 4 + y) _ c4 refl h3
                          λ value m5 e5 z5 c5.
                            bind-Ensures (Begins n m5) P _ _
                              (unmarshal_messages-Ensures n b m5 (i + 20 + x + 4 + y) c5)
                              λ ms g. (
                                g.0,
                                rw (z3, z5, mod-eq_of_lt f2, mod-eq_of_lt f4)
                                    (simp (e0, e1, e2, e3, e4, e5, g.1)),
                                ((omega arith), g.2),
                                ap suc g.3,
                              )

abbrev pub Encodes : List ℕ → FetchResponse → Type 0
Encodes b r = (tail : List ℕ) × (b ≡ fetch_response_layout r tail) × FetchResponseFits r

pub unmarshal_fetch_response-Ensures :
    (b : List ℕ) → All IsByte b → Ensures (Encodes b) (unmarshal_fetch_response b)
unfolding unmarshal_fetch_response
unmarshal_fetch_response-Ensures b bytes = check-Ensures (Encodes b) (length b) 4 _ λ h1.
    read_uint-Ensures (Encodes b) {i = 0} 4 4 _ (Bytes-start b bytes) refl h1 λ n m0 e0 f0 c0.
      bind-Ensures (Begins n m0) (Encodes b) _ _ (unmarshal_messages-Ensures n b m0 4 c0) λ ms g. (
        g.0,
        rw (g.3, mod-eq_of_lt f0) (simp (e0, g.1)),
        record { count_fits = omega (arith, g.3); all_fit = g.2 },
      )
