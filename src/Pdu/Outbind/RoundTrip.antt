-- ===== src/Pdu/Outbind/RoundTrip.antt =====
-- Outbind.Marshal and Outbind.Unmarshal of pdu/Outbind.go.
use gosmpp.Prelude.{◌+◌, ◌≡◌, refl, length}
use gosmpp.Outcome.{Bytes, Decodes, Decodes-bind, Decodes-last, Decodes-pure, ok}
use gosmpp.Buffer.RoundTrip.{NoNul, c_string-Decodes}
use gosmpp.Buffer.Consumption.{Consumes, Consumes-bind, Consumes-pure, c_string-Consumes}
use gosmpp.Base.Options.{emptied}
use gosmpp.Base.RoundTrip.{IsFrame, frame-Decodes}
use gosmpp.Base.Framing.{unmarshal-Consumes, unmarshal_with-Exact, unmarshal_with-header}
use gosmpp.Header.{parse_header}
use gosmpp.Pdu.Outbind.{Outbind, write_body, read_body, marshal, unmarshal}

pub record IsSendable (c : Outbind) : Type 0 where
  pub frame : IsFrame c.base (write_body c)
  pub system_id_fits : NoNul c.system_id
  pub password_fits : NoNul c.password

-- A receiver that has read nothing yet.
pub record IsFresh (c0 c : Outbind) : Type 0 where
  pub options : c0.base.optional_parameters ≡ emptied c.base.optional_parameters

body-Decodes :
    (c c0 : Outbind)
    → IsSendable c
    → IsFresh c0 c
    → Decodes (read_body c0) (write_body c) (record (c) { base = c0.base })
unfolding read_body write_body
body-Decodes c c0 h fresh =
    Decodes-bind _ (c_string-Decodes _ h.system_id_fits)
      (Decodes-bind _ (c_string-Decodes _ h.password_fits) (Decodes-pure _))

pub outbind-Decodes :
    (c c0 : Outbind)
    → IsSendable c
    → IsFresh c0 c
    → Decodes (unmarshal c0) (marshal c).1 (record (c) { base = (marshal c).0.base })
unfolding unmarshal marshal
outbind-Decodes c c0 h fresh = Decodes-last _ (
    frame-Decodes c.base c0.base (write_body c) _ _ h.frame fresh.options
      (body-Decodes c c0 h fresh))

body-Consumes : (c : Outbind) → Consumes (read_body c)
unfolding read_body
body-Consumes c =
    Consumes-bind _ c_string-Consumes λ _. Consumes-bind _ c_string-Consumes λ _. Consumes-pure _

pub outbind-Consumes : (c : Outbind) → Consumes (unmarshal c)
unfolding unmarshal
outbind-Consumes c =
    Consumes-bind _ (unmarshal-Consumes c.base _ (λ _. body-Consumes c)) λ _. Consumes-pure _

pub outbind-Exact :
    (c : Outbind) (b : Bytes) {c' : Outbind} {rest : Bytes}
    → unmarshal c b ≡ ok c' rest
    → length b ≡ c'.base.header.command_length + length rest
unfolding unmarshal
outbind-Exact c b e = unmarshal_with-Exact c.base _ _ (λ (p : Outbind). p.base) (λ _. refl) b e

pub outbind-header :
    (c : Outbind) (b : Bytes) {c' : Outbind} {rest : Bytes}
    → unmarshal c b ≡ ok c' rest
    → c'.base.header ≡ parse_header b
unfolding unmarshal
outbind-header c b e = unmarshal_with-header c.base _ _ (λ (p : Outbind). p.base) (λ _. refl) b e
