-- ===== src/Pdu/EnquireLinkResp/RoundTrip.antt =====
-- EnquireLinkResp.Marshal and EnquireLinkResp.Unmarshal of pdu/EnquireLinkResp.go.
use gosmpp.Prelude.{◌+◌, ◌≡◌, refl, length}
use gosmpp.Outcome.{Bytes, Decodes, Decodes-last, Decodes-pure, ok}
use gosmpp.Buffer.Consumption.{Consumes, Consumes-bind, Consumes-pure}
use gosmpp.Base.Options.{emptied}
use gosmpp.Base.RoundTrip.{IsFrame, frame-Decodes}
use gosmpp.Base.Framing.{unmarshal-Consumes, unmarshal_with-Exact, unmarshal_with-header}
use gosmpp.Header.{parse_header}
use gosmpp.Pdu.EnquireLinkResp.{EnquireLinkResp, write_body, read_body, marshal, unmarshal}

pub record IsSendable (c : EnquireLinkResp) : Type 0 where
  pub frame : IsFrame c.base (write_body c)

-- A receiver that has read nothing yet.
pub record IsFresh (c0 c : EnquireLinkResp) : Type 0 where
  pub options : c0.base.optional_parameters ≡ emptied c.base.optional_parameters

body-Decodes :
    (c c0 : EnquireLinkResp)
    → IsSendable c
    → IsFresh c0 c
    → Decodes (read_body c0) (write_body c) (record (c) { base = c0.base })
unfolding read_body write_body
body-Decodes c c0 h fresh = Decodes-pure _

pub enquire_link_resp-Decodes :
    (c c0 : EnquireLinkResp)
    → IsSendable c
    → IsFresh c0 c
    → Decodes (unmarshal c0) (marshal c).1 (record (c) { base = (marshal c).0.base })
unfolding unmarshal marshal
enquire_link_resp-Decodes c c0 h fresh = Decodes-last _ (
    frame-Decodes c.base c0.base (write_body c) _ _ h.frame fresh.options
      (body-Decodes c c0 h fresh))

body-Consumes : (c : EnquireLinkResp) → Consumes (read_body c)
unfolding read_body
body-Consumes c = Consumes-pure _

pub enquire_link_resp-Consumes : (c : EnquireLinkResp) → Consumes (unmarshal c)
unfolding unmarshal
enquire_link_resp-Consumes c =
    Consumes-bind _ (unmarshal-Consumes c.base _ (λ _. body-Consumes c)) λ _. Consumes-pure _

pub enquire_link_resp-Exact :
    (c : EnquireLinkResp) (b : Bytes) {c' : EnquireLinkResp} {rest : Bytes}
    → unmarshal c b ≡ ok c' rest
    → length b ≡ c'.base.header.command_length + length rest
unfolding unmarshal
enquire_link_resp-Exact c b e =
    unmarshal_with-Exact c.base _ _ (λ (p : EnquireLinkResp). p.base) (λ _. refl) b e

pub enquire_link_resp-header :
    (c : EnquireLinkResp) (b : Bytes) {c' : EnquireLinkResp} {rest : Bytes}
    → unmarshal c b ≡ ok c' rest
    → c'.base.header ≡ parse_header b
unfolding unmarshal
enquire_link_resp-header c b e =
    unmarshal_with-header c.base _ _ (λ (p : EnquireLinkResp). p.base) (λ _. refl) b e
