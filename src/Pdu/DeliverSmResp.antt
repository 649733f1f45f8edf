-- ===== src/Pdu/DeliverSmResp.antt =====
-- DeliverSMResp of pdu/DeliverSMResp.go.
pub mod RoundTrip
use gosmpp.Prelude.{[], ◌∷◌}
use gosmpp.Outcome.{Bytes, Reader, pure, ◌>>=◌, writes}
use gosmpp.Buffer.{read_c_string, write_c_string}
use gosmpp.Globals.{Globals}
use gosmpp.Header.{Header}
use gosmpp.Base
use gosmpp.Base.{Base, new_base, set_command_id, set_sequence_number}
use gosmpp.CommandId
use gosmpp.Pdu.DeliverSm.{DeliverSm}

pub record DeliverSmResp : Type 0 where
  pub base : Base
  pub message_id : Bytes

unfoldable pub new : Globals → DeliverSmResp × Globals
new g =
    let (base, g') = new_base g in
    (record { base = set_command_id CommandId.deliver_sm_resp base; message_id = [] }, g')

unfoldable pub new_from_req : Globals → DeliverSm → DeliverSmResp × Globals
new_from_req g req =
    let (c, g') = new g in
    (record c { base = set_sequence_number req.base.header.sequence_number c.base }, g')

-- The bodyWriter and the bodyReader.
unfoldable pub write_body : DeliverSmResp → Bytes
write_body c = writes (write_c_string c.message_id ∷ [])

unfoldable pub read_body : DeliverSmResp → Reader DeliverSmResp
read_body c = do message_id ← read_c_string; pure (record c { message_id = message_id })

unfoldable pub marshal : DeliverSmResp → DeliverSmResp × Bytes
marshal c =
    let (base, bytes) = Base.marshal c.base (write_body c) in (record c { base = base }, bytes)

unfoldable pub unmarshal : DeliverSmResp → Reader DeliverSmResp
unmarshal c = do
  (base, c') ← Base.unmarshal c.base (λ (_ : Header). read_body c)
  pure (record c' { base = base })
