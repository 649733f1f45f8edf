-- ===== src/Pdu/QuerySm/RoundTrip.antt =====
-- QuerySM.Marshal and QuerySM.Unmarshal of pdu/QuerySM.go.
use gosmpp.Prelude.{◌+◌, ◌≡◌, refl, length}
use gosmpp.Outcome.{Bytes, Decodes, Decodes-bind, Decodes-last, Decodes-pure, ok}
use gosmpp.Buffer.RoundTrip.{NoNul, c_string-Decodes}
use gosmpp.Buffer.Consumption.{Consumes, Consumes-bind, Consumes-pure, c_string-Consumes}
use gosmpp.Address.RoundTrip.{address-Decodes, address-Consumes}
use gosmpp.Base.Options.{emptied}
use gosmpp.Base.RoundTrip.{IsFrame, frame-Decodes}
use gosmpp.Base.Framing.{unmarshal-Consumes, unmarshal_with-Exact, unmarshal_with-header}
use gosmpp.Header.{parse_header}
use gosmpp.Pdu.QuerySm.{QuerySm, write_body, read_body, marshal, unmarshal}

pub record IsSendable (c : QuerySm) : Type 0 where
  pub frame : IsFrame c.base (write_body c)
  pub message_id_fits : NoNul c.message_id
  pub source_addr_fits : NoNul c.source_addr.address

-- A receiver that has read nothing yet.
pub record IsFresh (c0 c : QuerySm) : Type 0 where
  pub options : c0.base.optional_parameters ≡ emptied c.base.optional_parameters

body-Decodes :
    (c c0 : QuerySm)
    → IsSendable c
    → IsFresh c0 c
    → Decodes (read_body c0) (write_body c) (record (c) { base = c0.base })
unfolding read_body write_body
body-Decodes c c0 h fresh =
    Decodes-bind _ (c_string-Decodes _ h.message_id_fits)
      (Decodes-bind _ (address-Decodes _ h.source_addr_fits) (Decodes-pure _))

pub query_sm-Decodes :
    (c c0 : QuerySm)
    → IsSendable c
    → IsFresh c0 c
    → Decodes (unmarshal c0) (marshal c).1 (record (c) { base = (marshal c).0.base })
unfolding unmarshal marshal
query_sm-Decodes c c0 h fresh = Decodes-last _ (
    frame-Decodes c.base c0.base (write_body c) _ _ h.frame fresh.options
      (body-Decodes c c0 h fresh))

body-Consumes : (c : QuerySm) → Consumes (read_body c)
unfolding read_body
body-Consumes c =
    Consumes-bind _ c_string-Consumes λ _. Consumes-bind _ address-Consumes λ _. Consumes-pure _

pub query_sm-Consumes : (c : QuerySm) → Consumes (unmarshal c)
unfolding unmarshal
query_sm-Consumes c =
    Consumes-bind _ (unmarshal-Consumes c.base _ (λ _. body-Consumes c)) λ _. Consumes-pure _

pub query_sm-Exact :
    (c : QuerySm) (b : Bytes) {c' : QuerySm} {rest : Bytes}
    → unmarshal c b ≡ ok c' rest
    → length b ≡ c'.base.header.command_length + length rest
unfolding unmarshal
query_sm-Exact c b e = unmarshal_with-Exact c.base _ _ (λ (p : QuerySm). p.base) (λ _. refl) b e

pub query_sm-header :
    (c : QuerySm) (b : Bytes) {c' : QuerySm} {rest : Bytes}
    → unmarshal c b ≡ ok c' rest
    → c'.base.header ≡ parse_header b
unfolding unmarshal
query_sm-header c b e = unmarshal_with-header c.base _ _ (λ (p : QuerySm). p.base) (λ _. refl) b e
