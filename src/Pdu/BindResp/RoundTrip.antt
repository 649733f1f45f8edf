-- ===== src/Pdu/BindResp/RoundTrip.antt =====
-- BindResp.Marshal and BindResp.Unmarshal of pdu/BindResponse.go.
use gosmpp.Prelude.{◌+◌, ◌≡◌, refl, true, length, Bool-cases, inl, inr}
use gosmpp.Outcome.{Bytes, Decodes, Decodes-bind, Decodes-last, Decodes-pure, ok}
use gosmpp.Buffer.RoundTrip.{NoNul, c_string-Decodes}
use gosmpp.Buffer.Consumption.{Consumes, Consumes-bind, Consumes-pure, c_string-Consumes}
use gosmpp.Header.{Header, parse_header}
use gosmpp.Base.{marshal as base_marshal}
use gosmpp.Base.Options.{emptied}
use gosmpp.Base.RoundTrip.{IsFrame, frame-Decodes, framed}
use gosmpp.Base.Framing.{unmarshal-Consumes, unmarshal_with-Exact, unmarshal_with-header}
use gosmpp.Pdu.BindResp.{BindResp, write_body, read_body, has_system_id, marshal, unmarshal}

-- Of a refused bind the system_id is read for a transceiver only.
pub record IsSendable (c : BindResp) : Type 0 where
  pub frame : IsFrame c.base (write_body c)
  pub system_id_fits : NoNul c.system_id
  pub system_id_read : has_system_id c.base.header ≡ true

-- A receiver that has read nothing yet.
pub record IsFresh (c0 c : BindResp) : Type 0 where
  pub options : c0.base.optional_parameters ≡ emptied c.base.optional_parameters

body-Decodes :
    (c c0 : BindResp) (h : Header)
    → NoNul c.system_id
    → has_system_id h ≡ true
    → Decodes (read_body c0 h) (write_body c) (record c { base = c0.base })
unfolding read_body write_body
body-Decodes c c0 h fits present =
    rw present (Decodes-bind _ (c_string-Decodes _ fits) (Decodes-pure _))

pub has_system_id-framed :
    (c : BindResp) (bytes : Bytes)
    → has_system_id (framed c.base bytes).header ≡ has_system_id c.base.header
unfolding base_marshal
has_system_id-framed c bytes = refl

pub bind_resp-Decodes :
    (c c0 : BindResp)
    → IsSendable c
    → IsFresh c0 c
    → Decodes (unmarshal c0) (marshal c).1 (record c { base = (marshal c).0.base })
unfolding unmarshal marshal
bind_resp-Decodes c c0 h fresh = Decodes-last _ (
    frame-Decodes c.base c0.base (write_body c) _ _ h.frame fresh.options (
      body-Decodes c c0 _ h.system_id_fits
        (rw (has_system_id-framed c (write_body c)) h.system_id_read)))

body-Consumes : (c : BindResp) (h : Header) → Consumes (read_body c h)
unfolding read_body
body-Consumes c h = elim (Bool-cases (has_system_id h)) [
  | inl e ↦ rw e (Consumes-bind _ c_string-Consumes λ _. Consumes-pure _)
  | inr e ↦ rw e (Consumes-pure c)
]

pub bind_resp-Consumes : (c : BindResp) → Consumes (unmarshal c)
unfolding unmarshal
bind_resp-Consumes c =
    Consumes-bind _ (unmarshal-Consumes c.base _ (body-Consumes c)) λ _. Consumes-pure _

pub bind_resp-Exact :
    (c : BindResp) (b : Bytes) {c' : BindResp} {rest : Bytes}
    → unmarshal c b ≡ ok c' rest
    → length b ≡ c'.base.header.command_length + length rest
unfolding unmarshal
bind_resp-Exact c b e = unmarshal_with-Exact c.base _ _ (λ (p : BindResp). p.base) (λ _. refl) b e

pub bind_resp-header :
    (c : BindResp) (b : Bytes) {c' : BindResp} {rest : Bytes}
    → unmarshal c b ≡ ok c' rest
    → c'.base.header ≡ parse_header b
unfolding unmarshal
bind_resp-header c b e = unmarshal_with-header c.base _ _ (λ (p : BindResp). p.base) (λ _. refl) b e
