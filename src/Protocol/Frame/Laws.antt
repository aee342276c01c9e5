-- ===== src/Protocol/Frame/Laws.antt =====
-- pkg/protocol/protocol.go: frames on a connection.
use native.Mathlib.Nat.{add-zero, sub-zero, zero-sub, suc-sub-suc, sub-add-eq, mod-eq_of_lt}
use tumbleweed.Base.{
  ℕ, zero, ◌+◌, ◌-◌, ◌%◌, ◌^◌, ◌≤◌, ◌<◌, ◌≡◌, refl, sym, ap, ◌∙◌, List, [], ◌∷◌, ◌++◌, length, take,
  append_assoc, append-nil, true, false, ◌⊎◌, suc, ltb, leb, leb→le, le→leb, lt→ltb, if◌then◌else◌,
  Bool-cases, inl, inr, ok, err, io, ◌>>=◌, arith,
}
use tumbleweed.Bytes.{put_uint}
use tumbleweed.Bytes.Buffer.{sizes, copy_fill, write_uint_fill, length_bytes-append}
use tumbleweed.Bytes.Cursor.{At-start, At-uint, read_uint_passes}
use tumbleweed.Bytes.Stream.{read_full, read_full-append}
use tumbleweed.Protocol.Frame.{
  Frame, Writer, read_frame, write, frame_header, write_frame, write_body,
}

-- The wire format of a frame, and then `tail`. The length field is that of the body.
abbrev pub frame_layout : Frame → List ℕ → List ℕ
frame_layout f tail =
    (f.type ∷ [])
    ++ (put_uint 4 f.req_id ++ (put_uint 4 (length f.body % 2 ^ 32) ++ (f.body ++ tail)))

abbrev header_layout : Frame → List ℕ
header_layout f = (f.type ∷ []) ++ (put_uint 4 f.req_id ++ put_uint 4 (length f.body % 2 ^ 32))

frame_header-layout : (f : Frame) → frame_header f ≡ ok (header_layout f)
unfolding frame_header
frame_header-layout f =
    let b1 : List ℕ = f.type ∷ [] in
    let b2 = b1 ++ put_uint 4 f.req_id in
    copy_fill [] b1 0 1 9 8 _ (omega arith)
    ∙ write_uint_fill b1 4 f.req_id 1 5 8 4 _ (omega arith)
    ∙ write_uint_fill b2 4 (length f.body % 2 ^ 32) 5 9 4 0 ok (omega sizes)
    ∙ ap ok (simp (append_assoc, append-nil))

take_split : (n : ℕ) (xs ys : List ℕ) → take n (xs ++ ys) ≡ take n xs ++ take (n - length xs) ys
take_split zero [] ys = refl
take_split (suc n) [] ys = rw sub-zero
take_split zero (x ∷ xs) ys = rw zero-sub
take_split (suc n) (x ∷ xs) ys = rw (take_split n xs ys, suc-sub-suc)

take-nil : (n : ℕ) → take {A = ℕ} n [] ≡ []
take-nil zero = refl
take-nil (suc n) = refl

leb_sub : (a h r : ℕ) → h ≤ r → leb a (r - h) ≡ leb (h + a) r
leb_sub a h r k = ground arith

-- Two writes are one: the second goes out only behind the whole first.
write_body-write :
    (w : Writer) (h body : List ℕ)
    → write_body body (write w h) ≡ (
      record { sent = w.sent ++ take w.room (h ++ body); room = w.room - length (h ++ body) },
      if leb (length (h ++ body)) w.room then ok tt else err io,
    )
unfolding write
write_body-write w h body =
    rw (take_split w.room h body, length_bytes-append h body)
      (go body (Bool-cases (leb (length h) w.room)))
  where
    go :
        (b : List ℕ)
        → (leb (length h) w.room ≡ true) ⊎ (leb (length h) w.room ≡ false)
        → write_body b (write w h) ≡ (
          record {
            sent = w.sent ++ (take w.room h ++ take (w.room - length h) b);
            room = w.room - (length h + length b);
          },
          if leb (length h + length b) w.room then ok tt else err io,
        )
    go b (inr e) =
        let room_left : w.room - length h ≡ 0 = ground arith in
        let none_left : w.room - (length h + length b) ≡ 0 = ground arith in
        let too_long : leb (length h + length b) w.room ≡ false = ground arith in
        rw (e, room_left, none_left, too_long, append-nil)
    go [] (inl e) = rw (add-zero (length h), e, take-nil, append-nil)
    go (x ∷ xs) (inl e) = rw (
      e,
      lt→ltb 0 (length (x ∷ xs)) (omega arith),
      append_assoc,
      sub-add-eq w.room (length h) (length (x ∷ xs)),
      leb_sub (length (x ∷ xs)) (length h) w.room (leb→le (length h) w.room e),
    )

-- The bytes of a frame go out as far as the connection takes them, and the call succeeds exactly
-- when it takes them all.
pub write_frame_lem :
    (w : Writer) (f : Frame)
    → write_frame w f ≡ (
      record {
        sent = w.sent ++ take w.room (frame_layout f []);
        room = w.room - length (frame_layout f []);
      },
      if leb (length (frame_layout f [])) w.room then ok tt else err io,
    )
unfolding write_frame write
write_frame_lem w f = rw frame_header-layout (
    write_body-write w (header_layout f) f.body
    ∙ ap
        (λ (p : List ℕ). (
          record { sent = w.sent ++ take w.room p; room = w.room - length p },
          if leb (length p) w.room then ok tt else err io,
        ))
        (simp (append_assoc, append-nil)))

-- The fields fit, and the length field agrees with the body.
pub record FrameFits (f : Frame) : Type 0 where
  pub type_fits : f.type < 2 ^ 8
  pub req_id_fits : f.req_id < 2 ^ 32
  pub body_fits : length f.body < 2 ^ 32
  pub size_agrees : f.size ≡ length f.body

one_byte : (v : ℕ) → v < 256 → put_uint 1 v ≡ v ∷ []
unfolding put_uint
one_byte v h = ap (λ x. x ∷ []) (omega arith)

read_body :
    (type req_id : ℕ) (body tail : List ℕ)
    → (if ltb 0 (length body)
        then ◌>>=◌ {W = Frame × List ℕ}
            (read_full (length body) (body ++ tail))
            (λ p. ok (record { type = type; req_id = req_id; size = length body; body = p.0 }, p.1))
        else ok
            (record { type = type; req_id = req_id; size = length body; body = [] }, body ++ tail))
      ≡ ok (record { type = type; req_id = req_id; size = length body; body = body }, tail)
read_body type req_id [] tail = refl
read_body type req_id (x ∷ xs) tail = rw (
  lt→ltb 0 (length (x ∷ xs)) (omega arith),
  read_full-append (length (x ∷ xs)) (x ∷ xs) tail refl,
)

-- The wire format of a frame whose fields fit, and whose length field agrees with its body, is read
-- back as that frame, and the bytes that follow it are left.
pub read_frame-layout :
    (f : Frame) (tail : List ℕ) → FrameFits f → read_frame (frame_layout f tail) ≡ ok (f, tail)
unfolding read_frame
read_frame-layout f tail h =
    let n = length f.body in
    let r2 = put_uint 4 n in
    let r1 = put_uint 4 f.req_id ++ r2 in
    let r0 = put_uint 1 f.type ++ r1 in
    let a0 = At-start r0 in
    let a1 = At-uint 1 f.type 1 r1 a0 (omega arith) in
    let a2 = At-uint 4 f.req_id 5 r2 a1 (omega arith) in
    let split : frame_layout f tail ≡ r0 ++ (f.body ++ tail) =
      rw (mod-eq_of_lt h.body_fits, one_byte f.type h.type_fits) (simp append_assoc) in
    ap read_frame split
    ∙ rw (read_full-append 9 r0 (f.body ++ tail) (omega sizes)) (
        read_uint_passes 1 f.type 1 r1 _ a0 refl h.type_fits
        ∙ read_uint_passes 4 f.req_id 5 r2 _ a1 refl h.req_id_fits
        ∙ read_uint_passes 4 n 9 [] _ (rw append-nil a2) refl h.body_fits
        ∙ read_body f.type f.req_id f.body tail
        ∙ ap (λ (k : ℕ). ok (record f { size = k }, tail)) (sym h.size_agrees))

pub take_all : (xs : List ℕ) (n : ℕ) → length xs ≤ n → take n xs ≡ xs
take_all [] n h = take-nil n
take_all (x ∷ xs) zero h = absurd (omega arith)
take_all (x ∷ xs) (suc n) h = ap (λ t. x ∷ t) (take_all xs n (omega arith))

-- On a new connection that takes all its bytes, a frame whose fields fit and whose length field
-- agrees with its body is sent without an error, and the other side reads that frame and no more.
pub read_frame-write_frame :
    (f : Frame) (room : ℕ)
    → FrameFits f
    → length (frame_layout f []) ≤ room
    → let (w, r) = write_frame (record { sent = []; room = room }) f in
      (r ≡ ok tt) × (read_frame w.sent ≡ ok (f, []))
read_frame-write_frame f room h enough =
    let e = write_frame_lem (record { sent = []; room = room }) f in
    (
      ap (λ p. p.1) e ∙ rw (le→leb (length (frame_layout f [])) room enough) refl,
      ap (λ p. read_frame p.0.sent) e
          ∙ ap read_frame (take_all (frame_layout f []) room enough)
          ∙ read_frame-layout f [] h,
    )
