-- ===== src/Pdu/EnquireLink.antt =====
-- EnquireLink of pdu/EnquireLink.go.
pub mod RoundTrip
use gosmpp.Prelude.{[]}
use gosmpp.Outcome.{Bytes, Reader, pure, ◌>>=◌}
use gosmpp.Globals.{Globals}
use gosmpp.Header.{Header}
use gosmpp.Base
use gosmpp.Base.{Base, new_base, set_command_id}
use gosmpp.CommandId

pub record EnquireLink : Type 0 where
  pub base : Base

unfoldable pub new : Globals → EnquireLink × Globals
new g =
    let (base, g') = new_base g in
    (record { base = set_command_id CommandId.enquire_link base }, g')

-- There is no body.
unfoldable pub write_body : EnquireLink → Bytes
write_body c = []

unfoldable pub read_body : EnquireLink → Reader EnquireLink
read_body c = pure c

unfoldable pub marshal : EnquireLink → EnquireLink × Bytes
marshal c =
    let (base, bytes) = Base.marshal c.base (write_body c) in (record c { base = base }, bytes)

unfoldable pub unmarshal : EnquireLink → Reader EnquireLink
unmarshal c = do
  (base, c') ← Base.unmarshal c.base (λ (_ : Header). read_body c)
  pure (record c' { base = base })
