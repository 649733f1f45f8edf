-- ===== src/AddressRange.antt =====
-- AddressRange of pdu/AddressRange.go.
pub mod RoundTrip
use gosmpp.Prelude.{ℕ, [], ◌∷◌}
use gosmpp.Outcome.{Bytes, Reader, pure, ◌>>=◌, writes}
use gosmpp.Buffer.{read_byte, write_byte, read_c_string, write_c_string}
use gosmpp.Globals.{Globals}

pub record AddressRange : Type 0 where
  pub ton : ℕ
  pub npi : ℕ
  pub address_range : Bytes

abbrev pub zero_address_range : AddressRange
zero_address_range = record { ton = 0; npi = 0; address_range = [] }

unfoldable pub new_address_range : Globals → AddressRange
new_address_range g = record { ton = g.default_ton; npi = g.default_npi; address_range = [] }

unfoldable pub new_address_range_with_addr : Globals → Bytes → AddressRange
new_address_range_with_addr g addr =
    let ar : AddressRange = new_address_range g in record ar { address_range = addr }

unfoldable pub new_address_range_with_ton_npi : ℕ → ℕ → AddressRange
new_address_range_with_ton_npi ton npi = record { ton = ton; npi = npi; address_range = [] }

unfoldable pub new_address_range_with_ton_npi_addr : ℕ → ℕ → Bytes → AddressRange
new_address_range_with_ton_npi_addr ton npi addr =
    let ar : AddressRange = new_address_range_with_ton_npi ton npi in
    record ar { address_range = addr }

unfoldable pub unmarshal : Reader AddressRange
unmarshal = do
  ton ← read_byte
  npi ← read_byte
  address_range ← read_c_string
  pure (record { ton = ton; npi = npi; address_range = address_range })

unfoldable pub marshal : AddressRange → Bytes
marshal c = writes (write_byte c.ton ∷ write_byte c.npi ∷ write_c_string c.address_range ∷ [])
