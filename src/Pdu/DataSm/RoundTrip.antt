-- ===== src/Pdu/DataSm/RoundTrip.antt =====
-- DataSM.Marshal and DataSM.Unmarshal of pdu/DataSM.go.
use gosmpp.Prelude.{◌+◌, ◌≡◌, refl, length}
use gosmpp.Outcome.{Bytes, Decodes, Decodes-bind, Decodes-last, Decodes-pure, ok}
use gosmpp.Buffer.RoundTrip.{NoNul, byte-Decodes, c_string-Decodes}
use gosmpp.Buffer.Consumption.{
  Consumes, Consumes-bind, Consumes-pure, byte-Consumes, c_string-Consumes,
}
use gosmpp.Address.RoundTrip.{address-Decodes, address-Consumes}
use gosmpp.Base.Options.{emptied}
use gosmpp.Base.RoundTrip.{IsFrame, frame-Decodes}
use gosmpp.Base.Framing.{unmarshal-Consumes, unmarshal_with-Exact, unmarshal_with-header}
use gosmpp.Header.{parse_header}
use gosmpp.Pdu.DataSm.{DataSm, write_body, read_body, marshal, unmarshal}

pub record IsSendable (c : DataSm) : Type 0 where
  pub frame : IsFrame c.base (write_body c)
  pub service_type_fits : NoNul c.service_type
  pub source_addr_fits : NoNul c.source_addr.address
  pub dest_addr_fits : NoNul c.dest_addr.address

-- A receiver that has read nothing yet.
pub record IsFresh (c0 c : DataSm) : Type 0 where
  pub options : c0.base.optional_parameters ≡ emptied c.base.optional_parameters

body-Decodes :
    (c c0 : DataSm)
    → IsSendable c
    → IsFresh c0 c
    → Decodes (read_body c0) (write_body c) (record (c) { base = c0.base })
unfolding read_body write_body
body-Decodes c c0 h fresh = Decodes-bind _ (c_string-Decodes _ h.service_type_fits) (
    Decodes-bind _ (address-Decodes _ h.source_addr_fits) (
      Decodes-bind _ (address-Decodes _ h.dest_addr_fits) (
        Decodes-bind _ (byte-Decodes _)
          (Decodes-bind _ (byte-Decodes _) (Decodes-bind _ (byte-Decodes _) (Decodes-pure _))))))

pub data_sm-Decodes :
    (c c0 : DataSm)
    → IsSendable c
    → IsFresh c0 c
    → Decodes (unmarshal c0) (marshal c).1 (record (c) { base = (marshal c).0.base })
unfolding unmarshal marshal
data_sm-Decodes c c0 h fresh = Decodes-last _ (
    frame-Decodes c.base c0.base (write_body c) _ _ h.frame fresh.options
      (body-Decodes c c0 h fresh))

body-Consumes : (c : DataSm) → Consumes (read_body c)
unfolding read_body
body-Consumes c = Consumes-bind _ c_string-Consumes λ _. Consumes-bind _ address-Consumes λ _.
    Consumes-bind _ address-Consumes λ _. Consumes-bind _ byte-Consumes λ esm_class.
      Consumes-bind _ byte-Consumes λ _. Consumes-bind _ byte-Consumes λ _. Consumes-pure _

pub data_sm-Consumes : (c : DataSm) → Consumes (unmarshal c)
unfolding unmarshal
data_sm-Consumes c =
    Consumes-bind _ (unmarshal-Consumes c.base _ (λ _. body-Consumes c)) λ _. Consumes-pure _

pub data_sm-Exact :
    (c : DataSm) (b : Bytes) {c' : DataSm} {rest : Bytes}
    → unmarshal c b ≡ ok c' rest
    → length b ≡ c'.base.header.command_length + length rest
unfolding unmarshal
data_sm-Exact c b e = unmarshal_with-Exact c.base _ _ (λ (p : DataSm). p.base) (λ _. refl) b e

pub data_sm-header :
    (c : DataSm) (b : Bytes) {c' : DataSm} {rest : Bytes}
    → unmarshal c b ≡ ok c' rest
    → c'.base.header ≡ parse_header b
unfolding unmarshal
data_sm-header c b e = unmarshal_with-header c.base _ _ (λ (p : DataSm). p.base) (λ _. refl) b e
