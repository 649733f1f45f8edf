-- ===== src/Pdu/EnquireLink/RoundTrip.antt =====
-- EnquireLink.Marshal and EnquireLink.Unmarshal of pdu/EnquireLink.go.
use gosmpp.Prelude.{◌+◌, ◌≡◌, refl, length}
use gosmpp.Outcome.{Bytes, Decodes, Decodes-last, Decodes-pure, ok}
use gosmpp.Buffer.Consumption.{Consumes, Consumes-bind, Consumes-pure}
use gosmpp.Base.Options.{emptied}
use gosmpp.Base.RoundTrip.{IsFrame, frame-Decodes}
use gosmpp.Base.Framing.{unmarshal-Consumes, unmarshal_with-Exact, unmarshal_with-header}
use gosmpp.Header.{parse_header}
use gosmpp.Pdu.EnquireLink.{EnquireLink, write_body, read_body, marshal, unmarshal}

pub record IsSendable (c : EnquireLink) : Type 0 where
  pub frame : IsFrame c.base (write_body c)

-- A receiver that has read nothing yet.
pub record IsFresh (c0 c : EnquireLink) : Type 0 where
  pub options : c0.base.optional_parameters ≡ emptied c.base.optional_parameters

body-Decodes :
    (c c0 : EnquireLink)
    → IsSendable c
    → IsFresh c0 c
    → Decodes (read_body c0) (write_body c) (record (c) { base = c0.base })
unfolding read_body write_body
body-Decodes c c0 h fresh = Decodes-pure _

pub enquire_link-Decodes :
    (c c0 : EnquireLink)
    → IsSendable c
    → IsFresh c0 c
    → Decodes (unmarshal c0) (marshal c).1 (record (c) { base = (marshal c).0.base })
unfolding unmarshal marshal
enquire_link-Decodes c c0 h fresh = Decodes-last _ (
    frame-Decodes c.base c0.base (write_body c) _ _ h.frame fresh.options
      (body-Decodes c c0 h fresh))

body-Consumes : (c : EnquireLink) → Consumes (read_body c)
unfolding read_body
body-Consumes c = Consumes-pure _

pub enquire_link-Consumes : (c : EnquireLink) → Consumes (unmarshal c)
unfolding unmarshal
enquire_link-Consumes c =
    Consumes-bind _ (unmarshal-Consumes c.base _ (λ _. body-Consumes c)) λ _. Consumes-pure _

pub enquire_link-Exact :
    (c : EnquireLink) (b : Bytes) {c' : EnquireLink} {rest : Bytes}
    → unmarshal c b ≡ ok c' rest
    → length b ≡ c'.base.header.command_length + length rest
unfolding unmarshal
enquire_link-Exact c b e =
    unmarshal_with-Exact c.base _ _ (λ (p : EnquireLink). p.base) (λ _. refl) b e

pub enquire_link-header :
    (c : EnquireLink) (b : Bytes) {c' : EnquireLink} {rest : Bytes}
    → unmarshal c b ≡ ok c' rest
    → c'.base.header ≡ parse_header b
unfolding unmarshal
enquire_link-header c b e =
    unmarshal_with-header c.base _ _ (λ (p : EnquireLink). p.base) (λ _. refl) b e
