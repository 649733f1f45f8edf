-- ===== src/Pdu/SubmitMulti/RoundTrip.antt =====
-- SubmitMulti.Marshal and SubmitMulti.Unmarshal of pdu/SubmitMulti.go.
use gosmpp.Prelude.{◌+◌, ◌<◌, ◌≡◌, refl, All, length, map}
use gosmpp.Outcome.{Bytes, Decodes, Decodes-bind, Decodes-last, Decodes-pure, ok}
use gosmpp.Buffer.RoundTrip.{NoNul, byte-Decodes, c_string-Decodes}
use gosmpp.Buffer.Consumption.{
  Consumes, Consumes-bind, Consumes-pure, byte-Consumes, c_string-Consumes,
}
use gosmpp.Address.RoundTrip.{address-Decodes, address-Consumes}
use gosmpp.DestinationAddress.RoundTrip.{
  destinations-Decodes, destinations-Consumes, canonical, Sendable,
}
use gosmpp.ShortMessage.{udh_indicator}
use gosmpp.ShortMessage.RoundTrip.{message-Decodes, Fits, received, blank}
use gosmpp.ShortMessage.Consumption.{message-Consumes}
use gosmpp.Base.Options.{emptied}
use gosmpp.Base.RoundTrip.{IsFrame, frame-Decodes}
use gosmpp.Base.Framing.{unmarshal-Consumes, unmarshal_with-Exact, unmarshal_with-header}
use gosmpp.Header.{parse_header}
use gosmpp.Pdu.SubmitMulti.{SubmitMulti, write_body, read_body, marshal, unmarshal}

pub record IsSendable (c : SubmitMulti) : Type 0 where
  pub frame : IsFrame c.base (write_body c)
  pub service_type_fits : NoNul c.service_type
  pub source_addr_fits : NoNul c.source_addr.address
  pub few_dest_addrs : length c.dest_addrs.l < 256
  pub dest_addrs_fits : All Sendable c.dest_addrs.l
  pub schedule_delivery_time_fits : NoNul c.schedule_delivery_time
  pub validity_period_fits : NoNul c.validity_period
  pub message_fits : Fits c.message (udh_indicator c.esm_class)

-- A receiver that has read nothing yet.
pub record IsFresh (c0 c : SubmitMulti) : Type 0 where
  pub options : c0.base.optional_parameters ≡ emptied c.base.optional_parameters
  pub no_message : c0.message ≡ blank c.message.without_data_coding

-- What arrives of a PDU.
abbrev pub arrived : SubmitMulti → SubmitMulti
arrived c = record c {
  message = received c.message;
  dest_addrs = record { l = map canonical c.dest_addrs.l };
}

body-Decodes :
    (c c0 : SubmitMulti)
    → IsSendable c
    → IsFresh c0 c
    → Decodes (read_body c0) (write_body c) (record (arrived c) { base = c0.base })
unfolding read_body write_body
body-Decodes c c0 h fresh = Decodes-bind _ (c_string-Decodes _ h.service_type_fits) (
    Decodes-bind _ (address-Decodes _ h.source_addr_fits) (
      Decodes-bind _ (destinations-Decodes c.dest_addrs h.few_dest_addrs h.dest_addrs_fits) (
        Decodes-bind _ (byte-Decodes _) (
          Decodes-bind _ (byte-Decodes _) (
            Decodes-bind _ (byte-Decodes _) (
              Decodes-bind _ (c_string-Decodes _ h.schedule_delivery_time_fits) (
                Decodes-bind _ (c_string-Decodes _ h.validity_period_fits) (
                  Decodes-bind _ (byte-Decodes _) (
                    Decodes-bind _ (byte-Decodes _) (
                      Decodes-bind _
                        (rw fresh.no_message
                          (message-Decodes c.message (udh_indicator c.esm_class) h.message_fits))
                        (Decodes-pure _)))))))))))

pub submit_multi-Decodes :
    (c c0 : SubmitMulti)
    → IsSendable c
    → IsFresh c0 c
    → Decodes (unmarshal c0) (marshal c).1 (record (arrived c) { base = (marshal c).0.base })
unfolding unmarshal marshal
submit_multi-Decodes c c0 h fresh = Decodes-last _ (
    frame-Decodes c.base c0.base (write_body c) _ _ h.frame fresh.options
      (body-Decodes c c0 h fresh))

body-Consumes : (c : SubmitMulti) → Consumes (read_body c)
unfolding read_body
body-Consumes c = Consumes-bind _ c_string-Consumes λ _. Consumes-bind _ address-Consumes λ _.
    Consumes-bind _ destinations-Consumes λ _. Consumes-bind _ byte-Consumes λ esm_class.
      Consumes-bind _ byte-Consumes λ _. Consumes-bind _ byte-Consumes λ _.
        Consumes-bind _ c_string-Consumes λ _. Consumes-bind _ c_string-Consumes λ _.
          Consumes-bind _ byte-Consumes λ _. Consumes-bind _ byte-Consumes λ _.
            Consumes-bind _ (message-Consumes c.message (udh_indicator esm_class))
              λ _. Consumes-pure _

pub submit_multi-Consumes : (c : SubmitMulti) → Consumes (unmarshal c)
unfolding unmarshal
submit_multi-Consumes c =
    Consumes-bind _ (unmarshal-Consumes c.base _ (λ _. body-Consumes c)) λ _. Consumes-pure _

pub submit_multi-Exact :
    (c : SubmitMulti) (b : Bytes) {c' : SubmitMulti} {rest : Bytes}
    → unmarshal c b ≡ ok c' rest
    → length b ≡ c'.base.header.command_length + length rest
unfolding unmarshal
submit_multi-Exact c b e =
    unmarshal_with-Exact c.base _ _ (λ (p : SubmitMulti). p.base) (λ _. refl) b e

pub submit_multi-header :
    (c : SubmitMulti) (b : Bytes) {c' : SubmitMulti} {rest : Bytes}
    → unmarshal c b ≡ ok c' rest
    → c'.base.header ≡ parse_header b
unfolding unmarshal
submit_multi-header c b e =
    unmarshal_with-header c.base _ _ (λ (p : SubmitMulti). p.base) (λ _. refl) b e
