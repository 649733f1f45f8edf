-- ===== src/AddressRange/RoundTrip.antt =====
-- AddressRange.Marshal and AddressRange.Unmarshal of pdu/AddressRange.go.
use gosmpp.Outcome.{Decodes, Decodes-bind, Decodes-pure}
use gosmpp.Buffer.RoundTrip.{byte-Decodes, c_string-Decodes, NoNul}
use gosmpp.Buffer.Consumption.{
  Consumes, Consumes-bind, Consumes-pure, byte-Consumes, c_string-Consumes,
}
use gosmpp.AddressRange.{AddressRange, unmarshal, marshal}

pub address_range-Decodes :
    (c : AddressRange) → NoNul c.address_range → Decodes unmarshal (marshal c) c
unfolding unmarshal marshal
address_range-Decodes c h =
    Decodes-bind _ (byte-Decodes _)
      (Decodes-bind _ (byte-Decodes _) (Decodes-bind _ (c_string-Decodes _ h) (Decodes-pure _)))

pub address_range-Consumes : Consumes unmarshal
unfolding unmarshal
address_range-Consumes =
    Consumes-bind _ byte-Consumes
      λ _. Consumes-bind _ byte-Consumes λ _. Consumes-bind _ c_string-Consumes λ _. Consumes-pure _
