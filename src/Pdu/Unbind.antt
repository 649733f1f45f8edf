-- ===== src/Pdu/Unbind.antt =====
-- Unbind of pdu/Unbind.go.
pub mod RoundTrip
use gosmpp.Prelude.{[]}
use gosmpp.Outcome.{Bytes, Reader, pure, ◌>>=◌}
use gosmpp.Globals.{Globals}
use gosmpp.Header.{Header}
use gosmpp.Base
use gosmpp.Base.{Base, new_base, set_command_id}
use gosmpp.CommandId

pub record Unbind : Type 0 where
  pub base : Base

unfoldable pub new : Globals → Unbind × Globals
new g = let (base, g') = new_base g in (record { base = set_command_id CommandId.unbind base }, g')

-- There is no body.
unfoldable pub write_body : Unbind → Bytes
write_body c = []

unfoldable pub read_body : Unbind → Reader Unbind
read_body c = pure c

unfoldable pub marshal : Unbind → Unbind × Bytes
marshal c =
    let (base, bytes) = Base.marshal c.base (write_body c) in (record c { base = base }, bytes)

unfoldable pub unmarshal : Unbind → Reader Unbind
unmarshal c = do
  (base, c') ← Base.unmarshal c.base (λ (_ : Header). read_body c)
  pure (record c' { base = base })
