-- ===== src/Server/Laws/Tests.antt =====
-- The server's answer to an acknowledgement, at a broker with one topic.
use tumbleweed.Base.{ℕ, ◌+◌, ◌≡◌, refl, subst, List, All, [], ◌∷◌, Error, Result, ok, arith}
use tumbleweed.Bytes.{IsByte, read_uint, slice, uint}
use tumbleweed.Protocol.Frame.{Frame, type_req_ack}
use tumbleweed.Protocol.AckRequest.{AckRequest, unmarshal_ack_request}
use tumbleweed.Broker.Samples.{a_world, quiet_topic, broker_with}
use tumbleweed.Broker.Requests.{ack}
use tumbleweed.Broker.Names.{find, same_name}
use tumbleweed.Broker.Group.{ack_group, persist_state}
use tumbleweed.Broker.Leases.{lookup}
use tumbleweed.Broker.Topics.{BrokerState}
use tumbleweed.Client.EndToEnd.{operations}
use tumbleweed.Server.{Broker, process_frame}
use tumbleweed.Server.Laws.{Heard, Returns, Answer, process_frame-Answer}

abbrev no_text : Error → List ℕ
no_text e = 33 ∷ []

abbrev a_broker : Broker BrokerState
a_broker = operations a_world

abbrev an_ack : AckRequest
an_ack = record { topic = 97 ∷ []; group = 103 ∷ []; offset = 1 }

-- the acknowledgement of offset 1 by group "g" of topic "a"
abbrev a_frame : Frame
a_frame = record {
  type = type_req_ack;
  req_id = 7;
  size = 14;
  body = 0 ∷ 1 ∷ 97 ∷ 0 ∷ 1 ∷ 103 ∷ 0 ∷ 0 ∷ 0 ∷ 0 ∷ 0 ∷ 0 ∷ 0 ∷ 1 ∷ [];
}

decodes : unmarshal_ack_request a_frame.body ≡ ok an_ack
unfolding unmarshal_ack_request read_uint slice uint
decodes = refl

an_ack-Returns :
    Returns (a_broker.ack (broker_with quiet_topic) an_ack.topic an_ack.group an_ack.offset).1
unfolding ack find same_name ack_group persist_state lookup
an_ack-Returns = refl

same_request : (req : AckRequest) → unmarshal_ack_request a_frame.body ≡ ok req → an_ack ≡ req
same_request req at =
    let both : ◌≡◌ {A = Result AckRequest} (ok an_ack) (ok req) =
      subst (λ r. r ≡ ok req) decodes at in
    cc

a_frame-Heard : Heard a_broker (broker_with quiet_topic) a_frame
a_frame-Heard = record {
  produce_returns = λ req is at. absurd (omega (arith, is));
  fetch_returns = λ req is at. absurd (omega (arith, is));
  ack_returns = λ req is at.
      subst (λ r. Returns (a_broker.ack (broker_with quiet_topic) r.topic r.group r.offset).1)
        (same_request req at) an_ack-Returns;
  nack_returns = λ req is at. absurd (omega (arith, is));
  create_topic_returns = λ req is at. absurd (omega (arith, is));
}

a_frame-IsByte : All IsByte a_frame.body
a_frame-IsByte = ground arith

process_frame-Answer_example :
    Answer
      (a_frame.type + 128)
      7
      (process_frame no_text a_broker (63 ∷ []) (broker_with quiet_topic) a_frame).1
process_frame-Answer_example =
    process_frame-Answer no_text a_broker (broker_with quiet_topic) a_frame a_frame-Heard
      a_frame-IsByte (63 ∷ [])
