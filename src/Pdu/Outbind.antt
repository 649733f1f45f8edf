-- ===== src/Pdu/Outbind.antt =====
-- Outbind of pdu/Outbind.go.
pub mod RoundTrip
use gosmpp.Prelude.{[], ◌∷◌}
use gosmpp.Outcome.{Bytes, Reader, pure, ◌>>=◌, writes}
use gosmpp.Buffer.{read_c_string, write_c_string}
use gosmpp.Globals.{Globals}
use gosmpp.Header.{Header}
use gosmpp.Base
use gosmpp.Base.{Base, new_base, set_command_id}
use gosmpp.CommandId

pub record Outbind : Type 0 where
  pub base : Base
  pub system_id : Bytes
  pub password : Bytes

unfoldable pub new : Globals → Outbind × Globals
new g =
    let (base, g') = new_base g in
    (record { base = set_command_id CommandId.outbind base; system_id = []; password = [] }, g')

-- The bodyWriter and the bodyReader.
unfoldable pub write_body : Outbind → Bytes
write_body c = writes (write_c_string c.system_id ∷ write_c_string c.password ∷ [])

unfoldable pub read_body : Outbind → Reader Outbind
read_body c = do
  system_id ← read_c_string
  password ← read_c_string
  pure (record c { system_id = system_id; password = password })

unfoldable pub marshal : Outbind → Outbind × Bytes
marshal c =
    let (base, bytes) = Base.marshal c.base (write_body c) in (record c { base = base }, bytes)

unfoldable pub unmarshal : Outbind → Reader Outbind
unmarshal c = do
  (base, c') ← Base.unmarshal c.base (λ (_ : Header). read_body c)
  pure (record c' { base = base })
