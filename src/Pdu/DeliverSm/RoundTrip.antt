-- ===== src/Pdu/DeliverSm/RoundTrip.antt =====
-- DeliverSM.Marshal and DeliverSM.Unmarshal of pdu/DeliverSM.go.
use gosmpp.Prelude.{◌+◌, ◌≡◌, refl, length}
use gosmpp.Outcome.{Bytes, Decodes, Decodes-bind, Decodes-last, Decodes-pure, ok}
use gosmpp.Buffer.RoundTrip.{NoNul, byte-Decodes, c_string-Decodes}
use gosmpp.Buffer.Consumption.{
  Consumes, Consumes-bind, Consumes-pure, byte-Consumes, c_string-Consumes,
}
use gosmpp.Address.RoundTrip.{address-Decodes, address-Consumes}
use gosmpp.ShortMessage.{udh_indicator}
use gosmpp.ShortMessage.RoundTrip.{message-Decodes, Fits, received, blank}
use gosmpp.ShortMessage.Consumption.{message-Consumes}
use gosmpp.Base.Options.{emptied}
use gosmpp.Base.RoundTrip.{IsFrame, frame-Decodes}
use gosmpp.Base.Framing.{unmarshal-Consumes, unmarshal_with-Exact, unmarshal_with-header}
use gosmpp.Header.{parse_header}
use gosmpp.Pdu.DeliverSm.{DeliverSm, write_body, read_body, marshal, unmarshal}

pub record IsSendable (c : DeliverSm) : Type 0 where
  pub frame : IsFrame c.base (write_body c)
  pub service_type_fits : NoNul c.service_type
  pub source_addr_fits : NoNul c.source_addr.address
  pub dest_addr_fits : NoNul c.dest_addr.address
  pub schedule_delivery_time_fits : NoNul c.schedule_delivery_time
  pub validity_period_fits : NoNul c.validity_period
  pub message_fits : Fits c.message (udh_indicator c.esm_class)

-- A receiver that has read nothing yet.
pub record IsFresh (c0 c : DeliverSm) : Type 0 where
  pub options : c0.base.optional_parameters ≡ emptied c.base.optional_parameters
  pub no_message : c0.message ≡ blank c.message.without_data_coding

-- What arrives of a PDU.
abbrev pub arrived : DeliverSm → DeliverSm
arrived c = record c { message = received c.message }

body-Decodes :
    (c c0 : DeliverSm)
    → IsSendable c
    → IsFresh c0 c
    → Decodes (read_body c0) (write_body c) (record (arrived c) { base = c0.base })
unfolding read_body write_body
body-Decodes c c0 h fresh = Decodes-bind _ (c_string-Decodes _ h.service_type_fits) (
    Decodes-bind _ (address-Decodes _ h.source_addr_fits) (
      Decodes-bind _ (address-Decodes _ h.dest_addr_fits) (
        Decodes-bind _ (byte-Decodes _) (
          Decodes-bind _ (byte-Decodes _) (
            Decodes-bind _ (byte-Decodes _) (
              Decodes-bind _ (c_string-Decodes _ h.schedule_delivery_time_fits) (
                Decodes-bind _ (c_string-Decodes _ h.validity_period_fits) (
                  Decodes-bind _ (byte-Decodes _) (
                    Decodes-bind _ (byte-Decodes _) (
                      Decodes-bind _
                        (rw fresh.no_message
                          (message-Decodes c.message (udh_indicator c.esm_class) h.message_fits))
                        (Decodes-pure _)))))))))))

pub deliver_sm-Decodes :
    (c c0 : DeliverSm)
    → IsSendable c
    → IsFresh c0 c
    → Decodes (unmarshal c0) (marshal c).1 (record (arrived c) { base = (marshal c).0.base })
unfolding unmarshal marshal
deliver_sm-Decodes c c0 h fresh = Decodes-last _ (
    frame-Decodes c.base c0.base (write_body c) _ _ h.frame fresh.options
      (body-Decodes c c0 h fresh))

body-Consumes : (c : DeliverSm) → Consumes (read_body c)
unfolding read_body
body-Consumes c = Consumes-bind _ c_string-Consumes λ _. Consumes-bind _ address-Consumes λ _.
    Consumes-bind _ address-Consumes λ _. Consumes-bind _ byte-Consumes λ esm_class.
      Consumes-bind _ byte-Consumes λ _. Consumes-bind _ byte-Consumes λ _.
        Consumes-bind _ c_string-Consumes λ _. Consumes-bind _ c_string-Consumes λ _.
          Consumes-bind _ byte-Consumes λ _. Consumes-bind _ byte-Consumes λ _.
            Consumes-bind _ (message-Consumes c.message (udh_indicator esm_class))
              λ _. Consumes-pure _

pub deliver_sm-Consumes : (c : DeliverSm) → Consumes (unmarshal c)
unfolding unmarshal
deliver_sm-Consumes c =
    Consumes-bind _ (unmarshal-Consumes c.base _ (λ _. body-Consumes c)) λ _. Consumes-pure _

pub deliver_sm-Exact :
    (c : DeliverSm) (b : Bytes) {c' : DeliverSm} {rest : Bytes}
    → unmarshal c b ≡ ok c' rest
    → length b ≡ c'.base.header.command_length + length rest
unfolding unmarshal
deliver_sm-Exact c b e = unmarshal_with-Exact c.base _ _ (λ (p : DeliverSm). p.base) (λ _. refl) b e

pub deliver_sm-header :
    (c : DeliverSm) (b : Bytes) {c' : DeliverSm} {rest : Bytes}
    → unmarshal c b ≡ ok c' rest
    → c'.base.header ≡ parse_header b
unfolding unmarshal
deliver_sm-header c b e =
    unmarshal_with-header c.base _ _ (λ (p : DeliverSm). p.base) (λ _. refl) b e
