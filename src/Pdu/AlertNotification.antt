-- ===== src/Pdu/AlertNotification.antt =====
-- AlertNotification of pdu/AlertNotification.go.
pub mod RoundTrip
use gosmpp.Prelude.{[], ◌∷◌}
use gosmpp.Outcome.{Bytes, Reader, pure, ◌>>=◌, writes}
use gosmpp.Globals.{Globals}
use gosmpp.Header.{Header}
use gosmpp.Base
use gosmpp.Base.{Base, new_base, set_command_id}
use gosmpp.Address
use gosmpp.Address.{Address, zero_address}
use gosmpp.CommandId

pub record AlertNotification : Type 0 where
  pub base : Base
  pub source_addr : Address
  pub esme_addr : Address

unfoldable pub new : Globals → AlertNotification × Globals
new g =
    let (base, g') = new_base g in
    (
      record {
        base = set_command_id CommandId.alert_notification base;
        source_addr = zero_address;
        esme_addr = zero_address;
      },
      g',
    )

-- The bodyWriter and the bodyReader.
unfoldable pub write_body : AlertNotification → Bytes
write_body c = writes (Address.marshal c.source_addr ∷ Address.marshal c.esme_addr ∷ [])

unfoldable pub read_body : AlertNotification → Reader AlertNotification
read_body c = do
  source_addr ← Address.unmarshal
  esme_addr ← Address.unmarshal
  pure (record c { source_addr = source_addr; esme_addr = esme_addr })

unfoldable pub marshal : AlertNotification → AlertNotification × Bytes
marshal c =
    let (base, bytes) = Base.marshal c.base (write_body c) in (record c { base = base }, bytes)

unfoldable pub unmarshal : AlertNotification → Reader AlertNotification
unmarshal c = do
  (base, c') ← Base.unmarshal c.base (λ (_ : Header). read_body c)
  pure (record c' { base = base })
