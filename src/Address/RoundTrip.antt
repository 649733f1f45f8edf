-- ===== src/Address/RoundTrip.antt =====
-- Address.Marshal, Address.Unmarshal and SetAddress of pdu/Address.go.
use gosmpp.Prelude.{◌≤◌, arith, length}
use gosmpp.Outcome.{Bytes, Decodes, Decodes-bind, Decodes-pure}
use gosmpp.Buffer.RoundTrip.{byte-Decodes, c_string-Decodes, NoNul}
use gosmpp.Buffer.Consumption.{
  Consumes, Consumes-bind, Consumes-pure, byte-Consumes, c_string-Consumes,
}
use gosmpp.Address.{Address, unmarshal, marshal, set_address, sm_addr_len}

pub address-Decodes : (c : Address) → NoNul c.address → Decodes unmarshal (marshal c) c
unfolding unmarshal marshal
address-Decodes c h =
    Decodes-bind _ (byte-Decodes _)
      (Decodes-bind _ (byte-Decodes _) (Decodes-bind _ (c_string-Decodes _ h) (Decodes-pure _)))

pub address-Consumes : Consumes unmarshal
unfolding unmarshal
address-Consumes =
    Consumes-bind _ byte-Consumes
      λ _. Consumes-bind _ byte-Consumes λ _. Consumes-bind _ c_string-Consumes λ _. Consumes-pure _

-- The stored address never outgrows its limit, and an address that does is refused and not stored.
pub set_address_bounded :
    (addr : Bytes) (c : Address)
    → length c.address ≤ sm_addr_len
    → length (set_address addr c).0.address ≤ sm_addr_len
unfolding set_address
set_address_bounded addr c h = ground arith
