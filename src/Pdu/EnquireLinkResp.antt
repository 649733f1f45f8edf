-- ===== src/Pdu/EnquireLinkResp.antt =====
-- EnquireLinkResp of pdu/EnquireLinkResp.go.
pub mod RoundTrip
use gosmpp.Prelude.{[]}
use gosmpp.Outcome.{Bytes, Reader, pure, ◌>>=◌}
use gosmpp.Globals.{Globals}
use gosmpp.Header.{Header}
use gosmpp.Base
use gosmpp.Base.{Base, new_base, set_command_id, set_sequence_number}
use gosmpp.CommandId
use gosmpp.Pdu.EnquireLink.{EnquireLink}

pub record EnquireLinkResp : Type 0 where
  pub base : Base

unfoldable pub new : Globals → EnquireLinkResp × Globals
new g =
    let (base, g') = new_base g in
    (record { base = set_command_id CommandId.enquire_link_resp base }, g')

unfoldable pub new_from_req : Globals → EnquireLink → EnquireLinkResp × Globals
new_from_req g req =
    let (c, g') = new g in
    (record c { base = set_sequence_number req.base.header.sequence_number c.base }, g')

-- There is no body.
unfoldable pub write_body : EnquireLinkResp → Bytes
write_body c = []

unfoldable pub read_body : EnquireLinkResp → Reader EnquireLinkResp
read_body c = pure c

unfoldable pub marshal : EnquireLinkResp → EnquireLinkResp × Bytes
marshal c =
    let (base, bytes) = Base.marshal c.base (write_body c) in (record c { base = base }, bytes)

unfoldable pub unmarshal : EnquireLinkResp → Reader EnquireLinkResp
unmarshal c = do
  (base, c') ← Base.unmarshal c.base (λ (_ : Header). read_body c)
  pure (record c' { base = base })
