-- ===== src/Pdu/SubmitMultiResp.antt =====
-- SubmitMultiResp of pdu/SubmitMultiResp.go.
pub mod RoundTrip
use gosmpp.Prelude.{[], ◌∷◌}
use gosmpp.Outcome.{Bytes, Reader, pure, ◌>>=◌, writes}
use gosmpp.Buffer.{read_c_string, write_c_string}
use gosmpp.Globals.{Globals}
use gosmpp.Header.{Header}
use gosmpp.Base
use gosmpp.Base.{Base, new_base, set_command_id, set_sequence_number}
use gosmpp.UnsuccessSme
use gosmpp.UnsuccessSme.{UnsuccessSmes, new_unsuccess_smes}
use gosmpp.CommandId
use gosmpp.Pdu.SubmitMulti.{SubmitMulti}

pub record SubmitMultiResp : Type 0 where
  pub base : Base
  pub message_id : Bytes
  pub unsuccess_smes : UnsuccessSmes

unfoldable pub new : Globals → SubmitMultiResp × Globals
new g =
    let (base, g') = new_base g in
    (
      record {
        base = set_command_id CommandId.submit_multi_resp base;
        message_id = [];
        unsuccess_smes = new_unsuccess_smes;
      },
      g',
    )

unfoldable pub new_from_req : Globals → SubmitMulti → SubmitMultiResp × Globals
new_from_req g req =
    let (c, g') = new g in
    (record c { base = set_sequence_number req.base.header.sequence_number c.base }, g')

-- The bodyWriter and the bodyReader.
unfoldable pub write_body : SubmitMultiResp → Bytes
write_body c = writes (write_c_string c.message_id ∷ UnsuccessSme.marshal_all c.unsuccess_smes ∷ [])

unfoldable pub read_body : SubmitMultiResp → Reader SubmitMultiResp
read_body c = do
  message_id ← read_c_string
  unsuccess_smes ← UnsuccessSme.unmarshal_all
  pure (record c { message_id = message_id; unsuccess_smes = unsuccess_smes })

unfoldable pub marshal : SubmitMultiResp → SubmitMultiResp × Bytes
marshal c =
    let (base, bytes) = Base.marshal c.base (write_body c) in (record c { base = base }, bytes)

unfoldable pub unmarshal : SubmitMultiResp → Reader SubmitMultiResp
unmarshal c = do
  (base, c') ← Base.unmarshal c.base (λ (_ : Header). read_body c)
  pure (record c' { base = base })
