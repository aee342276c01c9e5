-- ===== src/Protocol/ListTopicsResponse/Encode.antt =====
-- pkg/protocol/protocol.go, ListTopicsResponse: what the encoder writes.
use tumbleweed.Base.{
  ℕ, ◌+◌, ◌%◌, ◌^◌, ◌≡◌, refl, ap, ◌∙◌, List, [], ◌∷◌, ◌++◌, length, append_assoc, ok,
}
use tumbleweed.Bytes.{make, put_uint}
use tumbleweed.Bytes.Buffer.{sizes, copy_fill, write_uint_fill}
use tumbleweed.Protocol.ListTopicsResponse.{
  ListTopicsResponse, total_size, marshal_topics, marshal_list_topics_response,
}

abbrev pub topics_layout : List (List ℕ) → List ℕ → List ℕ
topics_layout [] tail = tail
topics_layout (t ∷ ts) tail = put_uint 2 (length t % 2 ^ 16) ++ (t ++ topics_layout ts tail)

-- The wire format of a ListTopicsResponse, and then `tail`.
abbrev pub list_topics_response_layout : ListTopicsResponse → List ℕ → List ℕ
list_topics_response_layout r tail =
    put_uint 4 (length r.topics % 2 ^ 32) ++ topics_layout r.topics tail

pub topics_layout-append :
    (ts : List (List ℕ)) (tail more : List ℕ)
    → topics_layout ts tail ++ more ≡ topics_layout ts (tail ++ more)
topics_layout-append [] tail more = refl
topics_layout-append (t ∷ ts) tail more = simp (append_assoc, topics_layout-append ts tail more)

-- The loop writes every topic behind `pre`, the bytes written before.
marshal_topics_fill :
    (ts : List (List ℕ)) (pre : List ℕ) (idx : ℕ)
    → idx ≡ length pre
    → marshal_topics ts (pre ++ make (total_size ts)) idx ≡ ok (pre ++ topics_layout ts [])
unfolding marshal_topics total_size
marshal_topics_fill [] pre idx here = refl
marshal_topics_fill (t ∷ ts) pre idx here =
    let n = length t in
    let size = put_uint 2 (n % 2 ^ 16) in
    write_uint_fill pre 2 (n % 2 ^ 16) idx (idx + 2) (2 + n + total_size ts) (n + total_size ts) _
      (omega sizes)
    ∙ copy_fill (pre ++ size) t (idx + 2) (idx + 2 + n) _ (total_size ts) _ (omega sizes)
    ∙ marshal_topics_fill ts ((pre ++ size) ++ t) (idx + (2 + n)) (omega (sizes, here))
    ∙ ap ok (simp append_assoc)

pub marshal_list_topics_response-layout :
    (r : ListTopicsResponse)
    → marshal_list_topics_response r ≡ ok (list_topics_response_layout r [])
unfolding marshal_list_topics_response
marshal_list_topics_response-layout r =
    let n = length r.topics % 2 ^ 32 in
    write_uint_fill [] 4 n 0 4 (4 + total_size r.topics) (total_size r.topics) _ (omega sizes)
    ∙ marshal_topics_fill r.topics (put_uint 4 n) 4 (omega sizes)
