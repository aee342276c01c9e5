-- ===== src/Client/Served.antt =====
-- pkg/client/client.go against pkg/server/server.go: a client on a new connection to the server. What
-- arrives at the client is what handleConnection writes for the bytes that the client sent.
use native.Mathlib.Nat.{mod-eq_of_lt}
use tumbleweed.Base.{
  ℕ, suc, ◌+◌, ◌-◌, ◌%◌, ◌^◌, ◌≤◌, ◌<◌, ◌≡◌, refl, sym, ap, ◌∙◌, List, [], true, false, length,
  le→leb, ◌==◌, Error, Result, ok, err, broker_error, eof, arith,
}
use tumbleweed.Bytes.Buffer.{sizes}
use tumbleweed.Bytes.Stream.{read_full}
use tumbleweed.Protocol.Frame.{Frame, Writer, read_frame, write_frame, type_resp_error}
use tumbleweed.Protocol.Frame.Laws.{frame_layout, write_frame_lem, read_frame-layout, take_all}
use tumbleweed.Protocol.ErrorResponse.{ErrorResponse}
use tumbleweed.Protocol.ErrorResponse.Laws.{
  error_response_layout, marshal_error_response-layout, unmarshal_error_response-layout,
}
use tumbleweed.Server.{Broker, is_returned, frame_of, make_error_frame, replied, process_frame}
use tumbleweed.Server.Connection.{written, answered, handle_read, handle_connection}
use tumbleweed.Client.{Client, request_frame, check_response, execute, expect}

-- A frame that arrives; its length field is set.
abbrev pub arrived : Frame → Frame
arrived f = record f { size = length f.body }

-- a frame that can be written: its fields fit, whatever its length field says
pub record Writable (f : Frame) : Type 0 where
  pub type_fits : f.type < 2 ^ 8
  pub req_id_fits : f.req_id < 2 ^ 32
  pub body_fits : length f.body < 2 ^ 32

pub length-frame_layout : (f : Frame) → length (frame_layout f []) ≡ 9 + length f.body
length-frame_layout f = omega sizes

pub written_whole :
    (room : ℕ) (f : Frame)
    → 9 + length f.body ≤ room
    → write_frame (record { sent = []; room = room }) f
      ≡ (record { sent = frame_layout f []; room = room - length (frame_layout f []) }, ok tt)
written_whole room f enough =
    let fits : length (frame_layout f []) ≤ room = omega (arith, length-frame_layout f) in
    write_frame_lem (record { sent = []; room = room }) f
    ∙ rw (le→leb (length (frame_layout f [])) room fits, take_all (frame_layout f []) room fits)
        refl

pub read_whole : (f : Frame) → Writable f → read_frame (frame_layout f []) ≡ ok (arrived f, [])
read_whole f h = read_frame-layout (arrived f) [] (record {
  type_fits = h.type_fits;
  req_id_fits = h.req_id_fits;
  body_fits = h.body_fits;
  size_agrees = refl;
})

pub read_end : read_frame [] ≡ err eof
unfolding read_frame read_full
read_end = refl

-- A request that the connection to the server takes, from a client that has called nothing yet.
pub record Sendable (c : Client) (type : ℕ) (body : List ℕ) : Type 0 where
  pub fresh : c.out.sent ≡ []
  pub unread : c.incoming ≡ []
  pub type_fits : type < 2 ^ 8
  pub body_fits : length body < 2 ^ 32
  pub space : 9 + length body ≤ c.out.room

module _ {S : Type 0} (text : Error → List ℕ) (b : Broker S) (unknown_text : List ℕ) (fuel room : ℕ)
    (s : S) where
  -- what the server sends on a connection where these bytes arrive
  abbrev pub answers : List ℕ → List ℕ
  answers stream =
      (handle_connection text b unknown_text (suc (suc fuel)) s (record { sent = []; room = room })
        stream).1.sent

  handle_connection-answers :
      (f resp : Frame) (s' : S)
      → Writable f
      → process_frame text b unknown_text s (arrived f) ≡ (s', ok resp)
      → 9 + length resp.body ≤ room
      → answers (frame_layout f []) ≡ frame_layout resp []
  unfolding handle_connection
  handle_connection-answers f resp s' h made enough =
      let start : Writer = record { sent = []; room = room } in
      let next = handle_connection text b unknown_text (suc fuel) in
      ap (λ r. (handle_read text b unknown_text next s start r).1.sent) (read_whole f h)
      ∙ ap (λ p. (answered text b unknown_text (λ s w. next s w []) start p).1.sent) made
      ∙ ap (λ q. (written text b unknown_text (λ s w. next s w []) s' q).1.sent)
          (written_whole room resp enough)
      ∙ rw read_end refl

  execute-answers :
      (c : Client) (type : ℕ) (body : List ℕ) (resp : Frame) (s' : S)
      → Sendable c type body
      → process_frame text b unknown_text s (request_frame c type body) ≡ (s', ok resp)
      → Writable resp
      → 9 + length resp.body ≤ room
      → (execute answers c type body).1 ≡ check_response (arrived resp)
  unfolding execute
  execute-answers c type body resp s' h made k enough =
      let f = request_frame c type body in
      let size : arrived f ≡ f = ap (λ n. record f { size = n }) (sym (mod-eq_of_lt h.body_fits)) in
      let w : Writable f = record {
        type_fits = h.type_fits;
        req_id_fits = omega arith;
        body_fits = h.body_fits;
      } in
      let out : c.out ≡ record { sent = []; room = c.out.room } =
        ap (λ t. record c.out { sent = t }) h.fresh in
      let sent : write_frame c.out f ≡ (
        record { sent = frame_layout f []; room = c.out.room - length (frame_layout f []) },
        ok tt,
      ) =
        ap (λ o. write_frame o f) out ∙ written_whole c.out.room f h.space in
      let back : answers (frame_layout f []) ≡ frame_layout resp [] =
        handle_connection-answers f resp s' w (ap (process_frame text b unknown_text s) size ∙ made)
          enough in
      rw (sent, h.unread, back, read_whole resp k) refl

-- What the client makes of what the broker's operation returned.
abbrev pub relayed : {A : Type 0} → (Error → ℕ) → (Error → List ℕ) → Result A → Result A
relayed code text (ok a) = ok a
relayed code text (err e) = err (broker_error (code e) (text e))

-- A response to this result can be sent: what is encoded fits, and the connection takes it.
abbrev pub Relayable :
    {A : Type 0}
    → (A → Type 0)
    → (A → List ℕ)
    → (Error → ℕ)
    → (Error → List ℕ)
    → ℕ
    → Result A
    → Type 0
Relayable Fits layout code text room (ok a) =
    Fits a × (length (layout a) < 2 ^ 32) × (9 + length (layout a) ≤ room)
Relayable Fits layout code text room (err e) =
    (code e < 2 ^ 16)
    × (length (text e) < 2 ^ 16)
    × (13 + length (text e) ≤ room)
    × (is_returned e ≡ true)

module _ {A : Type 0} (peer : List ℕ → List ℕ) (type : ℕ) (decode : List ℕ → Result A) where
  expect-ok :
      (p : Client × Result Frame) (resp : Frame) (a : A)
      → p.1 ≡ ok resp
      → resp.type ≡ type
      → decode resp.body ≡ ok a
      → (expect peer type decode p).1 ≡ ok a
  expect-ok (c, ok r) resp a e same decoded =
      let is_resp : r ≡ resp = cc in
      let same' : (r.type == type) ≡ true =
        ground (arith, ap (λ (f : Frame). f.type) is_resp, same) in
      rw same' (ap (λ (f : Frame). decode f.body) is_resp ∙ decoded)
  expect-ok (c, err x) resp a e same decoded = absurd (cc)

  expect-err :
      (p : Client × Result Frame) (e : Error) → p.1 ≡ err e → (expect peer type decode p).1 ≡ err e
  expect-err (c, ok r) e h = absurd (cc)
  expect-err (c, err x) e h = let same : x ≡ e = cc in ap err same

length-error_layout :
    (code : ℕ) (message : List ℕ)
    → length (error_response_layout (record { code = code; message = message }) [])
      ≡ 4 + length message
length-error_layout code message = omega sizes

module _ {S : Type 0} (text : Error → List ℕ) (b : Broker S) (unknown_text : List ℕ) (fuel room : ℕ)
    (s : S) where
  module _ {A : Type 0} (Fits : A → Type 0) (layout : A → List ℕ) (decode : List ℕ → Result A)
      (decode-layout : (a : A) → Fits a → decode (layout a) ≡ ok a) (code : Error → ℕ)
      (type resp_type : ℕ) (type_fits : resp_type < 2 ^ 8)
      (no_error : (resp_type == type_resp_error) ≡ false) where
    pub expect-relayed :
        (c : Client) (body : List ℕ) (outcome : S × Result A) (reply : A → Result Frame)
        → ((a : A) → reply a ≡ ok (frame_of resp_type ((c.req_id + 1) % 2 ^ 32) (layout a)))
        → Sendable c type body
        → Relayable Fits layout code text room outcome.1
        → process_frame text b unknown_text s (request_frame c type body)
          ≡ replied text b code ((c.req_id + 1) % 2 ^ 32) outcome reply
        → (expect
            (answers text b unknown_text fuel room s)
            resp_type
            decode
            (execute (answers text b unknown_text fuel room s) c type body)).1
          ≡ relayed code text outcome.1
    unfolding make_error_frame
    expect-relayed c body (s', ok a) reply reply_is h (fits, short, space) made =
        let id = (c.req_id + 1) % 2 ^ 32 in
        let resp = frame_of resp_type id (layout a) in
        let got : (execute (answers text b unknown_text fuel room s) c type body).1
            ≡ check_response (arrived resp) =
          execute-answers text b unknown_text fuel room s c type body resp s' h
            (made ∙ ap (λ r. (s', r)) (reply_is a))
            (record { type_fits = type_fits; req_id_fits = omega arith; body_fits = short })
            space in
        let kept : check_response (arrived resp) ≡ ok (arrived resp) = rw no_error refl in
        expect-ok (answers text b unknown_text fuel room s) resp_type decode _ (arrived resp) a
          (got ∙ kept) refl (decode-layout a fits)
    expect-relayed c body (s', err e) reply reply_is h (code_fits, short, space, returned) made =
        let id = (c.req_id + 1) % 2 ^ 32 in
        let r : ErrorResponse = record { code = code e; message = text e } in
        let resp = frame_of type_resp_error id (error_response_layout r []) in
        let size = length-error_layout (code e) (text e) in
        let framed : make_error_frame id (code e) (text e) ≡ ok resp =
          rw (make_error_frame, marshal_error_response-layout r) refl in
        let answered : process_frame text b unknown_text s (request_frame c type body)
            ≡ (s', ok resp) =
          made ∙ rw (returned, framed) refl in
        let got : (execute (answers text b unknown_text fuel room s) c type body).1
            ≡ check_response (arrived resp) =
          execute-answers text b unknown_text fuel room s c type body resp s' h answered
            (record {
              type_fits = omega arith;
              req_id_fits = omega arith;
              body_fits = omega (arith, size);
            })
            (omega (arith, size)) in
        let read : check_response (arrived resp) ≡ err (broker_error (code e) (text e)) =
          rw
            (unmarshal_error_response-layout r []
              (record { code_fits = code_fits; message_fits = short }))
            refl in
        expect-err (answers text b unknown_text fuel room s) resp_type decode _
          (broker_error (code e) (text e)) (got ∙ read)
