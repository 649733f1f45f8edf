-- ===== src/Pdu/CancelSm.antt =====
-- CancelSM of pdu/CancelSM.go.
pub mod RoundTrip
use gosmpp.Prelude.{[], ◌∷◌}
use gosmpp.Outcome.{Bytes, Reader, pure, ◌>>=◌, writes}
use gosmpp.Buffer.{read_c_string, write_c_string}
use gosmpp.Globals.{Globals}
use gosmpp.Header.{Header}
use gosmpp.Base
use gosmpp.Base.{Base, new_base, set_command_id}
use gosmpp.Address
use gosmpp.Address.{Address, new_address}
use gosmpp.CommandId

pub record CancelSm : Type 0 where
  pub base : Base
  pub service_type : Bytes
  pub message_id : Bytes
  pub source_addr : Address
  pub dest_addr : Address

unfoldable pub new : Globals → CancelSm × Globals
new g =
    let (base, g') = new_base g in
    (
      record {
        base = set_command_id CommandId.cancel_sm base;
        service_type = [];
        message_id = [];
        source_addr = new_address g;
        dest_addr = new_address g;
      },
      g',
    )

-- The bodyWriter and the bodyReader.
unfoldable pub write_body : CancelSm → Bytes
write_body c = writes (
    write_c_string c.service_type
    ∷ write_c_string c.message_id
    ∷ Address.marshal c.source_addr
    ∷ Address.marshal c.dest_addr
    ∷ [])

unfoldable pub read_body : CancelSm → Reader CancelSm
read_body c = do
  service_type ← read_c_string
  message_id ← read_c_string
  source_addr ← Address.unmarshal
  dest_addr ← Address.unmarshal
  pure (record c {
    service_type = service_type;
    message_id = message_id;
    source_addr = source_addr;
    dest_addr = dest_addr;
  })

unfoldable pub marshal : CancelSm → CancelSm × Bytes
marshal c =
    let (base, bytes) = Base.marshal c.base (write_body c) in (record c { base = base }, bytes)

unfoldable pub unmarshal : CancelSm → Reader CancelSm
unmarshal c = do
  (base, c') ← Base.unmarshal c.base (λ (_ : Header). read_body c)
  pure (record c' { base = base })
