-- ===== src/Pdu/DataSm.antt =====
-- DataSM of pdu/DataSM.go.
pub mod RoundTrip
use gosmpp.Prelude.{ℕ, [], ◌∷◌}
use gosmpp.Outcome.{Bytes, Reader, pure, ◌>>=◌, writes}
use gosmpp.Buffer.{read_byte, write_byte, read_c_string, write_c_string}
use gosmpp.Globals.{Globals}
use gosmpp.Header.{Header}
use gosmpp.Base
use gosmpp.Base.{Base, new_base, set_command_id}
use gosmpp.Address
use gosmpp.Address.{Address, new_address}
use gosmpp.CommandId

pub record DataSm : Type 0 where
  pub base : Base
  pub service_type : Bytes
  pub source_addr : Address
  pub dest_addr : Address
  pub esm_class : ℕ
  pub registered_delivery : ℕ
  pub data_coding : ℕ

unfoldable pub new : Globals → DataSm × Globals
new g =
    let (base, g') = new_base g in
    (
      record {
        base = set_command_id CommandId.data_sm base;
        service_type = [];
        source_addr = new_address g;
        dest_addr = new_address g;
        esm_class = 0;
        registered_delivery = 0;
        data_coding = 0;
      },
      g',
    )

-- The bodyWriter and the bodyReader.
unfoldable pub write_body : DataSm → Bytes
write_body c = writes (
    write_c_string c.service_type
    ∷ Address.marshal c.source_addr
    ∷ Address.marshal c.dest_addr
    ∷ write_byte c.esm_class
    ∷ write_byte c.registered_delivery
    ∷ write_byte c.data_coding
    ∷ [])

unfoldable pub read_body : DataSm → Reader DataSm
read_body c = do
  service_type ← read_c_string
  source_addr ← Address.unmarshal
  dest_addr ← Address.unmarshal
  esm_class ← read_byte
  registered_delivery ← read_byte
  data_coding ← read_byte
  pure (record c {
    service_type = service_type;
    source_addr = source_addr;
    dest_addr = dest_addr;
    esm_class = esm_class;
    registered_delivery = registered_delivery;
    data_coding = data_coding;
  })

unfoldable pub marshal : DataSm → DataSm × Bytes
marshal c =
    let (base, bytes) = Base.marshal c.base (write_body c) in (record c { base = base }, bytes)

unfoldable pub unmarshal : DataSm → Reader DataSm
unmarshal c = do
  (base, c') ← Base.unmarshal c.base (λ (_ : Header). read_body c)
  pure (record c' { base = base })
