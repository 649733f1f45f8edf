-- ===== src/Pdu/QuerySm.antt =====
-- QuerySM of pdu/QuerySM.go.
pub mod RoundTrip
use gosmpp.Prelude.{[], ◌∷◌}
use gosmpp.Outcome.{Bytes, Reader, pure, ◌>>=◌, writes}
use gosmpp.Buffer.{read_c_string, write_c_string}
use gosmpp.Globals.{Globals}
use gosmpp.Header.{Header}
use gosmpp.Base
use gosmpp.Base.{Base, zero_base, set_command_id}
use gosmpp.Address
use gosmpp.Address.{Address, new_address}
use gosmpp.CommandId

pub record QuerySm : Type 0 where
  pub base : Base
  pub message_id : Bytes
  pub source_addr : Address

-- The base is left at its zero value: a nil map and no sequence number.
unfoldable pub new : Globals → QuerySm
new g = record {
  base = set_command_id CommandId.query_sm zero_base;
  message_id = [];
  source_addr = new_address g;
}

-- The bodyWriter and the bodyReader.
unfoldable pub write_body : QuerySm → Bytes
write_body c = writes (write_c_string c.message_id ∷ Address.marshal c.source_addr ∷ [])

unfoldable pub read_body : QuerySm → Reader QuerySm
read_body c = do
  message_id ← read_c_string
  source_addr ← Address.unmarshal
  pure (record c { message_id = message_id; source_addr = source_addr })

unfoldable pub marshal : QuerySm → QuerySm × Bytes
marshal c =
    let (base, bytes) = Base.marshal c.base (write_body c) in (record c { base = base }, bytes)

unfoldable pub unmarshal : QuerySm → Reader QuerySm
unmarshal c = do
  (base, c') ← Base.unmarshal c.base (λ (_ : Header). read_body c)
  pure (record c' { base = base })
