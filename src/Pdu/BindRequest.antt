-- ===== src/Pdu/BindRequest.antt =====
-- BindRequest of pdu/BindRequest.go.
pub mod RoundTrip
use gosmpp.Prelude.{ℕ, [], ◌∷◌}
use gosmpp.Outcome.{Bytes, Reader, pure, ◌>>=◌, writes}
use gosmpp.Buffer.{read_byte, write_byte, read_c_string, write_c_string}
use gosmpp.Globals.{Globals}
use gosmpp.Header.{Header}
use gosmpp.Base
use gosmpp.Base.{Base, new_base, set_command_id}
use gosmpp.AddressRange
use gosmpp.AddressRange.{AddressRange, zero_address_range}
use gosmpp.CommandId

pub data BindingType : Type 0 where
  receiver transceiver transmitter : BindingType

pub record BindRequest : Type 0 where
  pub base : Base
  pub system_id : Bytes
  pub password : Bytes
  pub system_type : Bytes
  pub interface_version : ℕ
  pub address_range : AddressRange
  pub binding_type : BindingType

abbrev pub bind_id : BindingType → ℕ
bind_id receiver = CommandId.bind_receiver
bind_id transceiver = CommandId.bind_transceiver
bind_id transmitter = CommandId.bind_transmitter

unfoldable pub new : BindingType → Globals → BindRequest × Globals
new t g =
    let (base, g') = new_base g in
    (
      record {
        base = set_command_id (bind_id t) base;
        system_id = [];
        password = [];
        system_type = [];
        interface_version = 0x34;
        address_range = zero_address_range;
        binding_type = t;
      },
      g',
    )

-- The bodyWriter and the bodyReader.
unfoldable pub write_body : BindRequest → Bytes
write_body c = writes (
    write_c_string c.system_id
    ∷ write_c_string c.password
    ∷ write_c_string c.system_type
    ∷ write_byte c.interface_version
    ∷ AddressRange.marshal c.address_range
    ∷ [])

unfoldable pub read_body : BindRequest → Reader BindRequest
read_body c = do
  system_id ← read_c_string
  password ← read_c_string
  system_type ← read_c_string
  interface_version ← read_byte
  address_range ← AddressRange.unmarshal
  pure (record c {
    system_id = system_id;
    password = password;
    system_type = system_type;
    interface_version = interface_version;
    address_range = address_range;
  })

unfoldable pub marshal : BindRequest → BindRequest × Bytes
marshal c =
    let (base, bytes) = Base.marshal c.base (write_body c) in (record c { base = base }, bytes)

unfoldable pub unmarshal : BindRequest → Reader BindRequest
unmarshal c = do
  (base, c') ← Base.unmarshal c.base (λ (_ : Header). read_body c)
  pure (record c' { base = base })
