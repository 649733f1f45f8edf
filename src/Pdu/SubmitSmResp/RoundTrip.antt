-- ===== src/Pdu/SubmitSmResp/RoundTrip.antt =====
-- SubmitSMResp.Marshal and SubmitSMResp.Unmarshal of pdu/SubmitSMResp.go.
use gosmpp.Prelude.{◌+◌, ◌≡◌, refl, length, append-nil}
use gosmpp.Outcome.{Bytes, Outcome, Decodes, Decodes-last, ok, err, eof}
use gosmpp.Buffer.{read_c_string, write_c_string}
use gosmpp.Buffer.RoundTrip.{NoNul, c_string-Decodes}
use gosmpp.Buffer.Consumption.{Consumes, Consumes-bind, Consumes-pure, unread, c_string-Consumes}
use gosmpp.Base.Options.{emptied}
use gosmpp.Base.RoundTrip.{IsFrame, frame-Decodes}
use gosmpp.Base.Framing.{unmarshal-Consumes, unmarshal_with-Exact, unmarshal_with-header}
use gosmpp.Header.{parse_header}
use gosmpp.Pdu.SubmitSmResp.{SubmitSmResp, write_body, read_body, marshal, unmarshal, forgive_eof}

pub record IsSendable (c : SubmitSmResp) : Type 0 where
  pub frame : IsFrame c.base (write_body c)
  pub message_id_fits : NoNul c.message_id

-- A receiver that has read nothing yet.
pub record IsFresh (c0 c : SubmitSmResp) : Type 0 where
  pub options : c0.base.optional_parameters ≡ emptied c.base.optional_parameters

body-Decodes :
    (c c0 : SubmitSmResp)
    → IsSendable c
    → IsFresh c0 c
    → Decodes (read_body c0) (write_body c) (record (c) { base = c0.base })
unfolding read_body write_body
body-Decodes c c0 h fresh =
    let d : Decodes read_c_string (write_c_string c.message_id) c.message_id =
      c_string-Decodes _ h.message_id_fits in
    rw append-nil (record { apply = λ rest. rw (d.apply rest) })

pub submit_sm_resp-Decodes :
    (c c0 : SubmitSmResp)
    → IsSendable c
    → IsFresh c0 c
    → Decodes (unmarshal c0) (marshal c).1 (record (c) { base = (marshal c).0.base })
unfolding unmarshal marshal
submit_sm_resp-Decodes c c0 h fresh = Decodes-last _ (
    frame-Decodes c.base c0.base (write_body c) _ _ h.frame fresh.options
      (body-Decodes c c0 h fresh))

forgive_eof-unread : (c : SubmitSmResp) (o : Outcome Bytes) → unread (forgive_eof c o) ≡ unread o
unfolding forgive_eof
forgive_eof-unread c (ok s b) = refl
forgive_eof-unread c (err eof b) = refl
forgive_eof-unread c (err _ b) = refl

pub body-Consumes : (c : SubmitSmResp) → Consumes (read_body c)
unfolding read_body
body-Consumes c = record {
  apply = λ b. rw (forgive_eof-unread c (read_c_string b)) (c_string-Consumes.apply b);
}

pub submit_sm_resp-Consumes : (c : SubmitSmResp) → Consumes (unmarshal c)
unfolding unmarshal
submit_sm_resp-Consumes c =
    Consumes-bind _ (unmarshal-Consumes c.base _ (λ _. body-Consumes c)) λ _. Consumes-pure _

pub submit_sm_resp-Exact :
    (c : SubmitSmResp) (b : Bytes) {c' : SubmitSmResp} {rest : Bytes}
    → unmarshal c b ≡ ok c' rest
    → length b ≡ c'.base.header.command_length + length rest
unfolding unmarshal
submit_sm_resp-Exact c b e =
    unmarshal_with-Exact c.base _ _ (λ (p : SubmitSmResp). p.base) (λ _. refl) b e

pub submit_sm_resp-header :
    (c : SubmitSmResp) (b : Bytes) {c' : SubmitSmResp} {rest : Bytes}
    → unmarshal c b ≡ ok c' rest
    → c'.base.header ≡ parse_header b
unfolding unmarshal
submit_sm_resp-header c b e =
    unmarshal_with-header c.base _ _ (λ (p : SubmitSmResp). p.base) (λ _. refl) b e
