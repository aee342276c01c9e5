-- ===== src/Client/States.antt =====
-- pkg/client/client.go against pkg/server/server.go: the state in which a call of a client on a new
-- connection leaves the server.
use native.Mathlib.Nat.{mod-eq_of_lt}
use tumbleweed.Base.{
  ℕ, suc, ◌-◌, ◌≡◌, refl, sym, ap, ◌∙◌, List, [], length, Error, Result, ok, err, arith,
}
use tumbleweed.Protocol.Frame.{Frame, Writer, write_frame, type_req_produce}
use tumbleweed.Protocol.Frame.Laws.{frame_layout}
use tumbleweed.Protocol.ProduceRequest.{ProduceRequest}
use tumbleweed.Protocol.ProduceRequest.Laws.{
  produce_request_layout, ProduceRequestFits, marshal_produce_request-layout,
  unmarshal_produce_request-layout,
}
use tumbleweed.Server.{Broker, replied, process_frame, process_produce}
use tumbleweed.Server.Connection.{written, answered, handle_read, handle_connection}
use tumbleweed.Client.{Client, request_frame, receive, execute, expect, produce}
use tumbleweed.Client.Served.{arrived, Writable, written_whole, read_whole, read_end, Sendable}

receive_out : (c : Client) (r : Result (Frame × List ℕ)) → (receive c r).0.out ≡ c.out
receive_out c (err e) = refl
receive_out c (ok (resp, rest)) = refl

expect_client :
    {A : Type 0} (peer : List ℕ → List ℕ) (type : ℕ) (decode : List ℕ → Result A)
    (p : Client × Result Frame)
    → (expect peer type decode p).0 ≡ p.0
expect_client peer type decode (c, err e) = refl
expect_client peer type decode (c, ok resp) = refl

-- What a call has sent.
execute_sent :
    (peer : List ℕ → List ℕ) (c : Client) (type : ℕ) (body : List ℕ)
    → Sendable c type body
    → (execute peer c type body).0.out.sent ≡ frame_layout (request_frame c type body) []
unfolding execute
execute_sent peer c type body h =
    let f = request_frame c type body in
    let out : c.out ≡ record { sent = []; room = c.out.room } =
      ap (λ t. record c.out { sent = t }) h.fresh in
    let w : Writer = record {
      sent = frame_layout f [];
      room = c.out.room - length (frame_layout f []);
    } in
    let sent : write_frame c.out f ≡ (w, ok tt) =
      ap (λ o. write_frame o f) out ∙ written_whole c.out.room f h.space in
    rw sent (ap (λ (w : Writer). w.sent) (receive_out _ _))

module _ {S : Type 0} (text : Error → List ℕ) (b : Broker S) (unknown_text : List ℕ) (fuel room : ℕ)
    (s : S) where
  -- the server's state at the end of a connection where these bytes arrive
  abbrev pub after : List ℕ → S
  after stream =
      (handle_connection text b unknown_text (suc (suc fuel)) s (record { sent = []; room = room })
        stream).0

  written-after :
      (s' : S) (q : Writer × Result (Unit {0}))
      → (written text b unknown_text
          (λ s w. handle_connection text b unknown_text (suc fuel) s w [])
          s'
          q).0
        ≡ s'
  unfolding handle_connection
  written-after s' (w, err e) = refl
  written-after s' (w, ok _) = rw read_end refl

  answered-after :
      (w : Writer) (p : S × Result Frame)
      → (answered text b unknown_text
          (λ s w. handle_connection text b unknown_text (suc fuel) s w [])
          w
          p).0
        ≡ p.0
  answered-after w (s', err e) = refl
  answered-after w (s', ok resp) = written-after s' (write_frame w resp)

  handle_connection-after :
      (f : Frame)
      → Writable f
      → after (frame_layout f []) ≡ (process_frame text b unknown_text s (arrived f)).0
  unfolding handle_connection
  handle_connection-after f h =
      let start : Writer = record { sent = []; room = room } in
      ap
        (λ r.
          (handle_read text b unknown_text (handle_connection text b unknown_text (suc fuel)) s
            start r).0)
        (read_whole f h)
      ∙ answered-after start (process_frame text b unknown_text s (arrived f))

  replied_state :
      {A : Type 0} (code : Error → ℕ) (id : ℕ) (p : S × Result A) (reply : A → Result Frame)
      → (replied text b code id p reply).0 ≡ p.0
  replied_state code id (s', ok a) reply = refl
  replied_state code id (s', err e) reply = refl

  call-after :
      {A : Type 0} (peer : List ℕ → List ℕ) (c : Client) (type resp_type : ℕ) (body : List ℕ)
      (decode : List ℕ → Result A)
      → Sendable c type body
      → after (expect peer resp_type decode (execute peer c type body)).0.out.sent
        ≡ (process_frame text b unknown_text s (request_frame c type body)).0
  call-after peer c type resp_type body decode h =
      let f = request_frame c type body in
      let size : arrived f ≡ f = ap (λ n. record f { size = n }) (sym (mod-eq_of_lt h.body_fits)) in
      ap (λ (d : Client). after d.out.sent)
        (expect_client peer resp_type decode (execute peer c type body))
      ∙ ap after (execute_sent peer c type body h)
      ∙ handle_connection-after f
          (record { type_fits = h.type_fits; req_id_fits = omega arith; body_fits = h.body_fits })
      ∙ ap (λ g. (process_frame text b unknown_text s g).0) size

  -- Produce leaves the server with the state of the broker's Produce.
  pub produce-after :
      (peer : List ℕ → List ℕ) (c : Client) (topic key value : List ℕ)
      → ProduceRequestFits (record { topic = topic; key = key; value = value })
      → Sendable c type_req_produce
          (produce_request_layout (record { topic = topic; key = key; value = value }) [])
      → after (produce peer c topic key value).0.out.sent ≡ (b.produce s topic key value).0
  unfolding produce process_frame process_produce
  produce-after peer c topic key value fits sendable =
      let r : ProduceRequest = record { topic = topic; key = key; value = value } in
      rw (marshal_produce_request-layout r) (
        call-after peer c type_req_produce _ (produce_request_layout r []) _ sendable
        ∙ rw (unmarshal_produce_request-layout r [] fits)
            (replied_state _ _ (b.produce s topic key value) _))
