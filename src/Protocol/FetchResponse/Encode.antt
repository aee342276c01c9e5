-- ===== src/Protocol/FetchResponse/Encode.antt =====
-- pkg/protocol/protocol.go, FetchResponse: what the encoder writes.
use tumbleweed.Base.{
  ℕ, ◌+◌, ◌%◌, ◌^◌, ◌≡◌, refl, ap, ◌∙◌, List, [], ◌∷◌, ◌++◌, length, append_assoc, append-nil, ok,
  arith,
}
use tumbleweed.Bytes.{make, put_uint}
use tumbleweed.Bytes.Buffer.{sizes, copy_fill, write_uint_fill}
use tumbleweed.Protocol.FetchResponse.{
  Message, FetchResponse, total_size, marshal_message, marshal_messages, marshal_fetch_response,
}

abbrev pub message_layout : Message → List ℕ → List ℕ
message_layout m tail =
    put_uint 8 m.offset
    ++ (put_uint 8 m.timestamp
        ++ (put_uint 4 (length m.key % 2 ^ 32)
            ++ (m.key ++ (put_uint 4 (length m.value % 2 ^ 32) ++ (m.value ++ tail)))))

abbrev pub messages_layout : List Message → List ℕ → List ℕ
messages_layout [] tail = tail
messages_layout (m ∷ ms) tail = message_layout m (messages_layout ms tail)

-- The wire format of a FetchResponse, and then `tail`.
abbrev pub fetch_response_layout : FetchResponse → List ℕ → List ℕ
fetch_response_layout r tail =
    put_uint 4 (length r.messages % 2 ^ 32) ++ messages_layout r.messages tail

pub messages_layout-append :
    (ms : List Message) (tail more : List ℕ)
    → messages_layout ms tail ++ more ≡ messages_layout ms (tail ++ more)
messages_layout-append [] tail more = refl
messages_layout-append (m ∷ ms) tail more = simp (append_assoc, messages_layout-append ms tail more)

-- One round of the loop writes one message behind `pre`, the bytes written before.
marshal_message_fill :
    (m : Message) (pre : List ℕ) (idx n k : ℕ)
    → idx ≡ length pre
    → n ≡ 8 + 8 + 4 + length m.key + 4 + length m.value + k
    → marshal_message m (pre ++ make n) idx ≡ ok ((pre ++ message_layout m []) ++ make k)
unfolding marshal_message
marshal_message_fill m pre idx n k here room =
    let x = length m.key in
    let y = length m.value in
    let b1 = pre ++ put_uint 8 m.offset in
    let b2 = b1 ++ put_uint 8 m.timestamp in
    let b3 = b2 ++ put_uint 4 (x % 2 ^ 32) in
    let b4 = b3 ++ m.key in
    let b5 = b4 ++ put_uint 4 (y % 2 ^ 32) in
    let i = idx + 20 + x in
    write_uint_fill pre 8 m.offset idx (idx + 8) n (8 + 4 + x + 4 + y + k) _ (omega sizes)
    ∙ write_uint_fill b1 8 m.timestamp (idx + 8) (idx + 16) _ (4 + x + 4 + y + k) _ (omega sizes)
    ∙ write_uint_fill b2 4 (x % 2 ^ 32) (idx + 16) (idx + 20) _ (x + 4 + y + k) _ (omega sizes)
    ∙ copy_fill b3 m.key (idx + 20) i _ (4 + y + k) _ (omega sizes)
    ∙ write_uint_fill b4 4 (y % 2 ^ 32) i (i + 4) _ (y + k) _ (omega sizes)
    ∙ copy_fill b5 m.value (i + 4) (i + 4 + y) _ k ok (omega sizes)
    ∙ ap (λ t. ok (t ++ make k)) (simp (append_assoc, append-nil))

length-message_layout :
    (m : Message) → length (message_layout m []) ≡ 20 + length m.key + 4 + length m.value
length-message_layout m = simp append-nil (omega (sizes))

marshal_messages_fill :
    (ms : List Message) (pre : List ℕ) (idx : ℕ)
    → idx ≡ length pre
    → marshal_messages ms (pre ++ make (total_size ms)) idx ≡ ok (pre ++ messages_layout ms [])
unfolding marshal_messages total_size
marshal_messages_fill [] pre idx here = refl
marshal_messages_fill (m ∷ ms) pre idx here =
    rw
      (marshal_message_fill m pre idx
        (8 + 8 + 4 + length m.key + 4 + length m.value + total_size ms) (total_size ms) here
        (omega arith))
      (marshal_messages_fill ms (pre ++ message_layout m []) _
          (omega (sizes, here, length-message_layout m))
        ∙ ap ok (
            append_assoc pre (message_layout m []) (messages_layout ms [])
            ∙ ap (λ t. pre ++ t) (simp append_assoc)))

pub marshal_fetch_response-layout :
    (r : FetchResponse) → marshal_fetch_response r ≡ ok (fetch_response_layout r [])
unfolding marshal_fetch_response
marshal_fetch_response-layout r =
    write_uint_fill [] 4 (length r.messages % 2 ^ 32) 0 4 (4 + total_size r.messages)
      (total_size r.messages) _ (omega sizes)
    ∙ marshal_messages_fill r.messages (put_uint 4 (length r.messages % 2 ^ 32)) 4 (omega sizes)
