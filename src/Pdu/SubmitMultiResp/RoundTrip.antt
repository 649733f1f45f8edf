-- ===== src/Pdu/SubmitMultiResp/RoundTrip.antt =====
-- SubmitMultiResp.Marshal and SubmitMultiResp.Unmarshal of pdu/SubmitMultiResp.go.
use gosmpp.Prelude.{◌+◌, ◌<◌, ◌≡◌, refl, All, length}
use gosmpp.Outcome.{Bytes, Decodes, Decodes-bind, Decodes-last, Decodes-pure, ok}
use gosmpp.Buffer.RoundTrip.{NoNul, c_string-Decodes}
use gosmpp.Buffer.Consumption.{Consumes, Consumes-bind, Consumes-pure, c_string-Consumes}
use gosmpp.UnsuccessSme.RoundTrip.{smes-Decodes, smes-Consumes, Sendable as SendableSme}
use gosmpp.Base.Options.{emptied}
use gosmpp.Base.RoundTrip.{IsFrame, frame-Decodes}
use gosmpp.Base.Framing.{unmarshal-Consumes, unmarshal_with-Exact, unmarshal_with-header}
use gosmpp.Header.{parse_header}
use gosmpp.Pdu.SubmitMultiResp.{SubmitMultiResp, write_body, read_body, marshal, unmarshal}

pub record IsSendable (c : SubmitMultiResp) : Type 0 where
  pub frame : IsFrame c.base (write_body c)
  pub message_id_fits : NoNul c.message_id
  pub few_unsuccess_smes : length c.unsuccess_smes.l < 256
  pub unsuccess_smes_fits : All SendableSme c.unsuccess_smes.l

-- A receiver that has read nothing yet.
pub record IsFresh (c0 c : SubmitMultiResp) : Type 0 where
  pub options : c0.base.optional_parameters ≡ emptied c.base.optional_parameters

body-Decodes :
    (c c0 : SubmitMultiResp)
    → IsSendable c
    → IsFresh c0 c
    → Decodes (read_body c0) (write_body c) (record (c) { base = c0.base })
unfolding read_body write_body
body-Decodes c c0 h fresh = Decodes-bind _ (c_string-Decodes _ h.message_id_fits) (
    Decodes-bind _ (smes-Decodes c.unsuccess_smes h.few_unsuccess_smes h.unsuccess_smes_fits)
      (Decodes-pure _))

pub submit_multi_resp-Decodes :
    (c c0 : SubmitMultiResp)
    → IsSendable c
    → IsFresh c0 c
    → Decodes (unmarshal c0) (marshal c).1 (record (c) { base = (marshal c).0.base })
unfolding unmarshal marshal
submit_multi_resp-Decodes c c0 h fresh = Decodes-last _ (
    frame-Decodes c.base c0.base (write_body c) _ _ h.frame fresh.options
      (body-Decodes c c0 h fresh))

body-Consumes : (c : SubmitMultiResp) → Consumes (read_body c)
unfolding read_body
body-Consumes c =
    Consumes-bind _ c_string-Consumes λ _. Consumes-bind _ smes-Consumes λ _. Consumes-pure _

pub submit_multi_resp-Consumes : (c : SubmitMultiResp) → Consumes (unmarshal c)
unfolding unmarshal
submit_multi_resp-Consumes c =
    Consumes-bind _ (unmarshal-Consumes c.base _ (λ _. body-Consumes c)) λ _. Consumes-pure _

pub submit_multi_resp-Exact :
    (c : SubmitMultiResp) (b : Bytes) {c' : SubmitMultiResp} {rest : Bytes}
    → unmarshal c b ≡ ok c' rest
    → length b ≡ c'.base.header.command_length + length rest
unfolding unmarshal
submit_multi_resp-Exact c b e =
    unmarshal_with-Exact c.base _ _ (λ (p : SubmitMultiResp). p.base) (λ _. refl) b e

pub submit_multi_resp-header :
    (c : SubmitMultiResp) (b : Bytes) {c' : SubmitMultiResp} {rest : Bytes}
    → unmarshal c b ≡ ok c' rest
    → c'.base.header ≡ parse_header b
unfolding unmarshal
submit_multi_resp-header c b e =
    unmarshal_with-header c.base _ _ (λ (p : SubmitMultiResp). p.base) (λ _. refl) b e
