-- ===== src/UnsuccessSme/RoundTrip.antt =====
-- The two Marshal and Unmarshal methods of pdu/UnsuccessSME.go.
use gosmpp.Prelude.{◌<◌, ◌^◌, List, [], ◌∷◌, All, length}
use mathlib.Core.List.{map-id}
use gosmpp.Outcome.{Decodes, Decodes-bind, Decodes-last, Decodes-pure}
use gosmpp.Buffer.RoundTrip.{NoNul, int-Decodes}
use gosmpp.Buffer.Consumption.{Consumes, Consumes-bind, Consumes-pure, int-Consumes}
use gosmpp.Batch.{batch-Decodes, batch-Consumes}
use gosmpp.Address.RoundTrip.{address-Decodes, address-Consumes}
use gosmpp.UnsuccessSme.{
  UnsuccessSme, UnsuccessSmes, unmarshal, marshal, unmarshal_all, marshal_all,
}

abbrev pub Sendable : UnsuccessSme → Type 0
Sendable c = NoNul c.address.address × (c.error_status_code < 2 ^ 32)

pub sme-Decodes : (c : UnsuccessSme) → Sendable c → Decodes unmarshal (marshal c) c
unfolding unmarshal marshal
sme-Decodes c h =
    Decodes-bind _ (address-Decodes _ h.0) (Decodes-bind _ (int-Decodes _ h.1) (Decodes-pure _))

pub sme-Consumes : Consumes unmarshal
unfolding unmarshal
sme-Consumes =
    Consumes-bind _ address-Consumes λ _. Consumes-bind _ int-Consumes λ _. Consumes-pure _

each : (l : List UnsuccessSme) → All Sendable l → All (λ d. Decodes unmarshal (marshal d) d) l
each [] h = tt
each (d ∷ l) (h, hs) = (sme-Decodes d h, each l hs)

-- Fewer than 256 unsuccessful destinations, with no zero byte in their addresses and int32 status
-- codes, are read back in order.
pub smes-Decodes :
    (c : UnsuccessSmes)
    → length c.l < 256
    → All Sendable c.l
    → Decodes unmarshal_all (marshal_all c) c
unfolding unmarshal_all marshal_all
smes-Decodes c short h =
    Decodes-last _ (rw map-id at (batch-Decodes unmarshal marshal (λ x. x) c.l short (each c.l h)))

pub smes-Consumes : Consumes unmarshal_all
unfolding unmarshal_all
smes-Consumes = Consumes-bind _ (batch-Consumes _ sme-Consumes) λ _. Consumes-pure _
