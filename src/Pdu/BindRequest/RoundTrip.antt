-- ===== src/Pdu/BindRequest/RoundTrip.antt =====
-- BindRequest.Marshal and BindRequest.Unmarshal of pdu/BindRequest.go.
use gosmpp.Prelude.{◌+◌, ◌≡◌, refl, length}
use gosmpp.Outcome.{Bytes, Decodes, Decodes-bind, Decodes-last, Decodes-pure, ok}
use gosmpp.Buffer.RoundTrip.{NoNul, byte-Decodes, c_string-Decodes}
use gosmpp.Buffer.Consumption.{
  Consumes, Consumes-bind, Consumes-pure, byte-Consumes, c_string-Consumes,
}
use gosmpp.AddressRange.RoundTrip.{address_range-Decodes, address_range-Consumes}
use gosmpp.Base.Options.{emptied}
use gosmpp.Base.RoundTrip.{IsFrame, frame-Decodes}
use gosmpp.Base.Framing.{unmarshal-Consumes, unmarshal_with-Exact, unmarshal_with-header}
use gosmpp.Header.{parse_header}
use gosmpp.Pdu.BindRequest.{BindRequest, write_body, read_body, marshal, unmarshal}

pub record IsSendable (c : BindRequest) : Type 0 where
  pub frame : IsFrame c.base (write_body c)
  pub system_id_fits : NoNul c.system_id
  pub password_fits : NoNul c.password
  pub system_type_fits : NoNul c.system_type
  pub address_range_fits : NoNul c.address_range.address_range

-- A receiver that has read nothing yet.
pub record IsFresh (c0 c : BindRequest) : Type 0 where
  pub options : c0.base.optional_parameters ≡ emptied c.base.optional_parameters
  pub same_type : c0.binding_type ≡ c.binding_type

body-Decodes :
    (c c0 : BindRequest)
    → IsSendable c
    → IsFresh c0 c
    → Decodes (read_body c0) (write_body c) (record (c) { base = c0.base })
unfolding read_body write_body
body-Decodes c c0 h fresh = Decodes-bind _ (c_string-Decodes _ h.system_id_fits) (
    Decodes-bind _ (c_string-Decodes _ h.password_fits) (
      Decodes-bind _ (c_string-Decodes _ h.system_type_fits) (
        Decodes-bind _ (byte-Decodes _) (
          Decodes-bind _ (address_range-Decodes _ h.address_range_fits)
            (rw (← fresh.same_type) (Decodes-pure _))))))

pub bind_request-Decodes :
    (c c0 : BindRequest)
    → IsSendable c
    → IsFresh c0 c
    → Decodes (unmarshal c0) (marshal c).1 (record (c) { base = (marshal c).0.base })
unfolding unmarshal marshal
bind_request-Decodes c c0 h fresh = Decodes-last _ (
    frame-Decodes c.base c0.base (write_body c) _ _ h.frame fresh.options
      (body-Decodes c c0 h fresh))

body-Consumes : (c : BindRequest) → Consumes (read_body c)
unfolding read_body
body-Consumes c = Consumes-bind _ c_string-Consumes λ _. Consumes-bind _ c_string-Consumes λ _.
    Consumes-bind _ c_string-Consumes λ _.
      Consumes-bind _ byte-Consumes λ _. Consumes-bind _ address_range-Consumes λ _. Consumes-pure _

pub bind_request-Consumes : (c : BindRequest) → Consumes (unmarshal c)
unfolding unmarshal
bind_request-Consumes c =
    Consumes-bind _ (unmarshal-Consumes c.base _ (λ _. body-Consumes c)) λ _. Consumes-pure _

pub bind_request-Exact :
    (c : BindRequest) (b : Bytes) {c' : BindRequest} {rest : Bytes}
    → unmarshal c b ≡ ok c' rest
    → length b ≡ c'.base.header.command_length + length rest
unfolding unmarshal
bind_request-Exact c b e =
    unmarshal_with-Exact c.base _ _ (λ (p : BindRequest). p.base) (λ _. refl) b e

pub bind_request-header :
    (c : BindRequest) (b : Bytes) {c' : BindRequest} {rest : Bytes}
    → unmarshal c b ≡ ok c' rest
    → c'.base.header ≡ parse_header b
unfolding unmarshal
bind_request-header c b e =
    unmarshal_with-header c.base _ _ (λ (p : BindRequest). p.base) (λ _. refl) b e
