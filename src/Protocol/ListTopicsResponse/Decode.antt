-- ===== src/Protocol/ListTopicsResponse/Decode.antt =====
-- pkg/protocol/protocol.go, ListTopicsResponse: the decoder against the wire format.
use native.Mathlib.Nat.{add_assoc, mod-eq_of_lt}
use tumbleweed.Base.{
  ℕ, zero, suc, ◌+◌, ◌^◌, ◌<◌, ◌≡◌, refl, ap, ◌∙◌, List, [], ◌∷◌, ◌++◌, length, All, ok, arith,
}
use tumbleweed.Bytes.{put_uint, IsByte}
use tumbleweed.Bytes.Buffer.{sizes}
use tumbleweed.Bytes.Cursor.{
  At, At-start, At-next, At-uint, check_passes, slice_passes, read_uint_passes,
}
use tumbleweed.Bytes.Ensures.{
  Bytes, Ensures, Bytes-start, check-Ensures, slice-Ensures, read_uint-Ensures, bind-Ensures,
}
use tumbleweed.Protocol.ListTopicsResponse.{
  ListTopicsResponse, unmarshal_topics, unmarshal_list_topics_response,
}
use tumbleweed.Protocol.ListTopicsResponse.Encode.{topics_layout, list_topics_response_layout}

abbrev pub TopicFits : List ℕ → Type 0
TopicFits t = length t < 2 ^ 16

-- Each field fits the number of bytes that the format gives it.
pub record ListTopicsResponseFits (r : ListTopicsResponse) : Type 0 where
  pub count_fits : length r.topics < 2 ^ 32
  pub all_fit : All TopicFits r.topics

unmarshal_topics-layout :
    (ts : List (List ℕ)) (b tail : List ℕ) (i : ℕ)
    → All TopicFits ts
    → At b i (topics_layout ts tail)
    → unmarshal_topics (length ts) b i ≡ ok ts
unfolding unmarshal_topics
unmarshal_topics-layout [] b tail i h a = refl
unmarshal_topics-layout (t ∷ ts) b tail i h a0 =
    let n = length t in
    let r2 = topics_layout ts tail in
    let r1 = t ++ r2 in
    let r0 = put_uint 2 n ++ r1 in
    let b0 : At b i r0 = rw (mod-eq_of_lt h.0) at a0 in
    let a1 : At b (i + 2) r1 = At-uint 2 n (i + 2) r1 b0 refl in
    let a2 : At b (i + (2 + n)) r2 = At-next t r2 (i + (2 + n)) a1 (omega arith) in
    check_passes (i + 2) r0 _ b0 (omega sizes)
    ∙ read_uint_passes 2 n (i + 2) r1 _ b0 refl h.0
    ∙ check_passes (i + 2 + n) r1 _ a1 (omega sizes)
    ∙ slice_passes t r2 (i + 2 + n) _ a1 refl
    ∙ rw (unmarshal_topics-layout ts b tail (i + (2 + n)) h.1 a2)

pub unmarshal_list_topics_response-layout :
    (r : ListTopicsResponse) (tail : List ℕ)
    → ListTopicsResponseFits r
    → unmarshal_list_topics_response (list_topics_response_layout r tail) ≡ ok r
unfolding unmarshal_list_topics_response
unmarshal_list_topics_response-layout r tail h =
    let n = length r.topics in
    let r1 = topics_layout r.topics tail in
    let r0 = put_uint 4 n ++ r1 in
    let a0 : At r0 0 r0 = At-start r0 in
    rw (mod-eq_of_lt h.count_fits) (
      check_passes 4 r0 _ a0 (omega sizes)
      ∙ read_uint_passes 4 n 4 r1 _ a0 refl h.count_fits
      ∙ rw (unmarshal_topics-layout r.topics r0 tail 4 h.all_fit (At-uint 4 n 4 r1 a0 refl)))

-- The bytes at hand begin with `n` topics, which are `ts`.
abbrev Begins : ℕ → List ℕ → List (List ℕ) → Type 0
Begins n rest ts =
    (tail : List ℕ) × (rest ≡ topics_layout ts tail) × All TopicFits ts × (length ts ≡ n)

unmarshal_topics-Ensures :
    (n : ℕ) (b rest : List ℕ) (i : ℕ)
    → Bytes b i rest
    → Ensures (Begins n rest) (unmarshal_topics n b i)
unfolding unmarshal_topics
unmarshal_topics-Ensures zero b rest i c = (rest, refl, tt, refl)
unmarshal_topics-Ensures (suc n) b rest i c =
    let P = Begins (suc n) rest in
    check-Ensures P (length b) (i + 2) _ λ h1.
      read_uint-Ensures P {i = i} 2 (i + 2) _ c refl h1 λ x m0 e0 f0 c0.
        check-Ensures P (length b) (i + 2 + x) _ λ h2.
          slice-Ensures P {i = i + 2} x (i + 2 + x) _ c0 refl h2 λ t m1 e1 z1 c1.
            bind-Ensures (Begins n m1) P _ _
              (unmarshal_topics-Ensures n b m1 (i + (2 + x)) (rw (add_assoc i 2 x) at c1))
              λ ts g. (
                g.0,
                rw (z1, mod-eq_of_lt f0) (simp (e0, e1, g.1)),
                (omega (arith, z1), g.2),
                ap suc g.3,
              )

abbrev pub Encodes : List ℕ → ListTopicsResponse → Type 0
Encodes b r = (tail : List ℕ) × (b ≡ list_topics_response_layout r tail) × ListTopicsResponseFits r

pub unmarshal_list_topics_response-Ensures :
    (b : List ℕ) → All IsByte b → Ensures (Encodes b) (unmarshal_list_topics_response b)
unfolding unmarshal_list_topics_response
unmarshal_list_topics_response-Ensures b bytes = check-Ensures (Encodes b) (length b) 4 _ λ h1.
    read_uint-Ensures (Encodes b) {i = 0} 4 4 _ (Bytes-start b bytes) refl h1 λ n m0 e0 f0 c0.
      bind-Ensures (Begins n m0) (Encodes b) _ _ (unmarshal_topics-Ensures n b m0 4 c0) λ ts g. (
        g.0,
        rw (g.3, mod-eq_of_lt f0) (simp (e0, g.1)),
        record { count_fits = omega (arith, g.3); all_fit = g.2 },
      )
