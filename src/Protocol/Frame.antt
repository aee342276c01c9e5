-- ===== src/Protocol/Frame.antt =====
-- pkg/protocol/protocol.go: Frame, ReadFrame and WriteFrame. A reader is the list of the bytes that
-- still arrive before the connection is closed. A writer holds the bytes sent, and takes `room` more
-- before its connection breaks.
pub mod Laws
use tumbleweed.Base.{
  ℕ, ◌+◌, ◌-◌, ◌%◌, ◌^◌, List, [], ◌∷◌, ◌++◌, length, take, drop, ltb, leb, ◌==◌, if◌then◌else◌,
  Result, ok, err, eof, unexpected_eof, io, ◌>>=◌,
}
use tumbleweed.Bytes.Stream.{read_full}
use tumbleweed.Bytes.{make, copy, write_uint, read_uint}

-- Frame types
abbrev pub type_req_ping : ℕ
type_req_ping = 0x01

abbrev pub type_req_produce : ℕ
type_req_produce = 0x02

abbrev pub type_req_fetch : ℕ
type_req_fetch = 0x03

abbrev pub type_req_ack : ℕ
type_req_ack = 0x04

abbrev pub type_req_nack : ℕ
type_req_nack = 0x05

abbrev pub type_req_create_topic : ℕ
type_req_create_topic = 0x06

abbrev pub type_req_list_topics : ℕ
type_req_list_topics = 0x07

abbrev pub type_resp_pong : ℕ
type_resp_pong = 0x81

abbrev pub type_resp_produce : ℕ
type_resp_produce = 0x82

abbrev pub type_resp_fetch : ℕ
type_resp_fetch = 0x83

abbrev pub type_resp_ack : ℕ
type_resp_ack = 0x84

abbrev pub type_resp_nack : ℕ
type_resp_nack = 0x85

abbrev pub type_resp_create_topic : ℕ
type_resp_create_topic = 0x86

abbrev pub type_resp_list_topics : ℕ
type_resp_list_topics = 0x87

abbrev pub type_resp_error : ℕ
type_resp_error = 0xFF

pub record Frame : Type 0 where
  pub type : ℕ
  pub req_id : ℕ
  pub size : ℕ
  pub body : List ℕ

unfoldable pub read_frame : List ℕ → Result (Frame × List ℕ)
read_frame stream = do
  (header, stream) ← read_full 9 stream
  type ← read_uint 1 header 0 1
  req_id ← read_uint 4 header 1 5
  size ← read_uint 4 header 5 9
  if ltb 0 size
      then (do
        (body, stream) ← read_full size stream
        ok (record { type = type; req_id = req_id; size = size; body = body }, stream))
      else ok (record { type = type; req_id = req_id; size = size; body = [] }, stream)

pub record Writer : Type 0 where
  pub sent : List ℕ
  pub room : ℕ

-- `w.Write(p)`: a write that does not fit sends what fits, and fails
unfoldable pub write : Writer → List ℕ → Writer × Result (Unit {0})
write w p = (
  record { sent = w.sent ++ take w.room p; room = w.room - length p },
  if leb (length p) w.room then ok tt else err io,
)

-- the nine bytes of the header
unfoldable pub frame_header : Frame → Result (List ℕ)
frame_header f = do
  header ← copy (make 9) 0 1 (f.type ∷ [])
  header ← write_uint 4 header 1 5 f.req_id
  header ← write_uint 4 header 5 9 (length f.body % 2 ^ 32)
  ok header

abbrev write_body : List ℕ → Writer × Result (Unit {0}) → Writer × Result (Unit {0})
write_body body (w, err e) = (w, err e)
write_body body (w, ok _) = if ltb 0 (length body) then write w body else (w, ok tt)

abbrev write_header : Writer → List ℕ → Result (List ℕ) → Writer × Result (Unit {0})
write_header w body (err e) = (w, err e)
write_header w body (ok header) = write_body body (write w header)

unfoldable pub write_frame : Writer → Frame → Writer × Result (Unit {0})
write_frame w f = write_header w f.body (frame_header f)
