-- ===== src/Pdu/ReplaceSm/RoundTrip.antt =====
-- ReplaceSM.Marshal and ReplaceSM.Unmarshal of pdu/ReplaceSM.go.
use gosmpp.Prelude.{◌+◌, ◌≡◌, refl, length, false}
use gosmpp.Outcome.{Bytes, Decodes, Decodes-bind, Decodes-last, Decodes-pure, ok}
use gosmpp.Buffer.RoundTrip.{NoNul, byte-Decodes, c_string-Decodes}
use gosmpp.Buffer.Consumption.{
  Consumes, Consumes-bind, Consumes-pure, byte-Consumes, c_string-Consumes,
}
use gosmpp.Address.RoundTrip.{address-Decodes, address-Consumes}
use gosmpp.ShortMessage.RoundTrip.{message-Decodes, Fits, received, blank}
use gosmpp.ShortMessage.Consumption.{message-Consumes}
use gosmpp.Base.Options.{emptied}
use gosmpp.Base.RoundTrip.{IsFrame, frame-Decodes}
use gosmpp.Base.Framing.{unmarshal-Consumes, unmarshal_with-Exact, unmarshal_with-header}
use gosmpp.Header.{parse_header}
use gosmpp.Pdu.ReplaceSm.{ReplaceSm, write_body, read_body, marshal, unmarshal}

pub record IsSendable (c : ReplaceSm) : Type 0 where
  pub frame : IsFrame c.base (write_body c)
  pub message_id_fits : NoNul c.message_id
  pub source_addr_fits : NoNul c.source_addr.address
  pub schedule_delivery_time_fits : NoNul c.schedule_delivery_time
  pub validity_period_fits : NoNul c.validity_period
  pub message_fits : Fits c.message false

-- A receiver that has read nothing yet.
pub record IsFresh (c0 c : ReplaceSm) : Type 0 where
  pub options : c0.base.optional_parameters ≡ emptied c.base.optional_parameters
  pub no_message : c0.message ≡ blank c.message.without_data_coding

-- What arrives of a PDU.
abbrev pub arrived : ReplaceSm → ReplaceSm
arrived c = record c { message = received c.message }

body-Decodes :
    (c c0 : ReplaceSm)
    → IsSendable c
    → IsFresh c0 c
    → Decodes (read_body c0) (write_body c) (record (arrived c) { base = c0.base })
unfolding read_body write_body
body-Decodes c c0 h fresh = Decodes-bind _ (c_string-Decodes _ h.message_id_fits) (
    Decodes-bind _ (address-Decodes _ h.source_addr_fits) (
      Decodes-bind _ (c_string-Decodes _ h.schedule_delivery_time_fits) (
        Decodes-bind _ (c_string-Decodes _ h.validity_period_fits) (
          Decodes-bind _ (byte-Decodes _) (
            Decodes-bind _ (rw fresh.no_message (message-Decodes c.message false h.message_fits))
              (Decodes-pure _))))))

pub replace_sm-Decodes :
    (c c0 : ReplaceSm)
    → IsSendable c
    → IsFresh c0 c
    → Decodes (unmarshal c0) (marshal c).1 (record (arrived c) { base = (marshal c).0.base })
unfolding unmarshal marshal
replace_sm-Decodes c c0 h fresh = Decodes-last _ (
    frame-Decodes c.base c0.base (write_body c) _ _ h.frame fresh.options
      (body-Decodes c c0 h fresh))

body-Consumes : (c : ReplaceSm) → Consumes (read_body c)
unfolding read_body
body-Consumes c = Consumes-bind _ c_string-Consumes λ _. Consumes-bind _ address-Consumes λ _.
    Consumes-bind _ c_string-Consumes λ _. Consumes-bind _ c_string-Consumes λ _.
      Consumes-bind _ byte-Consumes
        λ _. Consumes-bind _ (message-Consumes c.message false) λ _. Consumes-pure _

pub replace_sm-Consumes : (c : ReplaceSm) → Consumes (unmarshal c)
unfolding unmarshal
replace_sm-Consumes c =
    Consumes-bind _ (unmarshal-Consumes c.base _ (λ _. body-Consumes c)) λ _. Consumes-pure _

pub replace_sm-Exact :
    (c : ReplaceSm) (b : Bytes) {c' : ReplaceSm} {rest : Bytes}
    → unmarshal c b ≡ ok c' rest
    → length b ≡ c'.base.header.command_length + length rest
unfolding unmarshal
replace_sm-Exact c b e = unmarshal_with-Exact c.base _ _ (λ (p : ReplaceSm). p.base) (λ _. refl) b e

pub replace_sm-header :
    (c : ReplaceSm) (b : Bytes) {c' : ReplaceSm} {rest : Bytes}
    → unmarshal c b ≡ ok c' rest
    → c'.base.header ≡ parse_header b
unfolding unmarshal
replace_sm-header c b e =
    unmarshal_with-header c.base _ _ (λ (p : ReplaceSm). p.base) (λ _. refl) b e
