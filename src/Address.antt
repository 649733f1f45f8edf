-- ===== src/Address.antt =====
-- Address of pdu/Address.go: type of number, numbering plan and the address string.
pub mod RoundTrip
use gosmpp.Prelude.{ℕ, [], ◌∷◌, ltb, if◌then◌else◌, length, Option, none, some}
use gosmpp.Outcome.{Bytes, Error, address_too_long, Reader, pure, ◌>>=◌, writes}
use gosmpp.Buffer.{read_byte, write_byte, read_c_string, write_c_string}
use gosmpp.Globals.{Globals}

pub record Address : Type 0 where
  pub ton : ℕ
  pub npi : ℕ
  pub address : Bytes

abbrev pub zero_address : Address
zero_address = record { ton = 0; npi = 0; address = [] }

-- data.SM_ADDR_LEN
abbrev pub sm_addr_len : ℕ
sm_addr_len = 21

unfoldable pub new_address_with_ton_npi : ℕ → ℕ → Address
new_address_with_ton_npi ton npi = record { ton = ton; npi = npi; address = [] }

unfoldable pub new_address : Globals → Address
new_address g = record { ton = g.default_ton; npi = g.default_npi; address = [] }

unfoldable pub set_address : Bytes → Address → Address × Option Error
set_address addr c =
    if ltb sm_addr_len (length addr)
    then (c, some address_too_long)
    else (record c { address = addr }, none)

unfoldable pub set_ton : ℕ → Address → Address
set_ton ton c = record c { ton = ton }

unfoldable pub set_npi : ℕ → Address → Address
set_npi npi c = record c { npi = npi }

unfoldable pub new_address_with_addr : Globals → Bytes → Address × Option Error
new_address_with_addr g addr = set_address addr (new_address g)

unfoldable pub new_address_with_ton_npi_addr : ℕ → ℕ → Bytes → Address × Option Error
new_address_with_ton_npi_addr ton npi addr = set_address addr (new_address_with_ton_npi ton npi)

unfoldable pub unmarshal : Reader Address
unmarshal = do
  ton ← read_byte
  npi ← read_byte
  address ← read_c_string
  pure (record { ton = ton; npi = npi; address = address })

unfoldable pub marshal : Address → Bytes
marshal c = writes (write_byte c.ton ∷ write_byte c.npi ∷ write_c_string c.address ∷ [])
