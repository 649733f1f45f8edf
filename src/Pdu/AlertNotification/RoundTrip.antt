-- ===== src/Pdu/AlertNotification/RoundTrip.antt =====
-- AlertNotification.Marshal and AlertNotification.Unmarshal of pdu/AlertNotification.go.
use gosmpp.Prelude.{◌+◌, ◌≡◌, refl, length}
use gosmpp.Outcome.{Bytes, Decodes, Decodes-bind, Decodes-last, Decodes-pure, ok}
use gosmpp.Buffer.RoundTrip.{NoNul}
use gosmpp.Buffer.Consumption.{Consumes, Consumes-bind, Consumes-pure}
use gosmpp.Address.RoundTrip.{address-Decodes, address-Consumes}
use gosmpp.Base.Options.{emptied}
use gosmpp.Base.RoundTrip.{IsFrame, frame-Decodes}
use gosmpp.Base.Framing.{unmarshal-Consumes, unmarshal_with-Exact, unmarshal_with-header}
use gosmpp.Header.{parse_header}
use gosmpp.Pdu.AlertNotification.{AlertNotification, write_body, read_body, marshal, unmarshal}

pub record IsSendable (c : AlertNotification) : Type 0 where
  pub frame : IsFrame c.base (write_body c)
  pub source_addr_fits : NoNul c.source_addr.address
  pub esme_addr_fits : NoNul c.esme_addr.address

-- A receiver that has read nothing yet.
pub record IsFresh (c0 c : AlertNotification) : Type 0 where
  pub options : c0.base.optional_parameters ≡ emptied c.base.optional_parameters

body-Decodes :
    (c c0 : AlertNotification)
    → IsSendable c
    → IsFresh c0 c
    → Decodes (read_body c0) (write_body c) (record (c) { base = c0.base })
unfolding read_body write_body
body-Decodes c c0 h fresh =
    Decodes-bind _ (address-Decodes _ h.source_addr_fits)
      (Decodes-bind _ (address-Decodes _ h.esme_addr_fits) (Decodes-pure _))

pub alert_notification-Decodes :
    (c c0 : AlertNotification)
    → IsSendable c
    → IsFresh c0 c
    → Decodes (unmarshal c0) (marshal c).1 (record (c) { base = (marshal c).0.base })
unfolding unmarshal marshal
alert_notification-Decodes c c0 h fresh = Decodes-last _ (
    frame-Decodes c.base c0.base (write_body c) _ _ h.frame fresh.options
      (body-Decodes c c0 h fresh))

body-Consumes : (c : AlertNotification) → Consumes (read_body c)
unfolding read_body
body-Consumes c =
    Consumes-bind _ address-Consumes λ _. Consumes-bind _ address-Consumes λ _. Consumes-pure _

pub alert_notification-Consumes : (c : AlertNotification) → Consumes (unmarshal c)
unfolding unmarshal
alert_notification-Consumes c =
    Consumes-bind _ (unmarshal-Consumes c.base _ (λ _. body-Consumes c)) λ _. Consumes-pure _

pub alert_notification-Exact :
    (c : AlertNotification) (b : Bytes) {c' : AlertNotification} {rest : Bytes}
    → unmarshal c b ≡ ok c' rest
    → length b ≡ c'.base.header.command_length + length rest
unfolding unmarshal
alert_notification-Exact c b e =
    unmarshal_with-Exact c.base _ _ (λ (p : AlertNotification). p.base) (λ _. refl) b e

pub alert_notification-header :
    (c : AlertNotification) (b : Bytes) {c' : AlertNotification} {rest : Bytes}
    → unmarshal c b ≡ ok c' rest
    → c'.base.header ≡ parse_header b
unfolding unmarshal
alert_notification-header c b e =
    unmarshal_with-header c.base _ _ (λ (p : AlertNotification). p.base) (λ _. refl) b e
