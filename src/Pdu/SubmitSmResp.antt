-- ===== src/Pdu/SubmitSmResp.antt =====
-- SubmitSMResp of pdu/SubmitSMResp.go.
pub mod RoundTrip
use gosmpp.Prelude.{[], ◌∷◌}
use gosmpp.Outcome.{Bytes, Reader, Outcome, ok, err, eof, pure, ◌>>=◌, writes}
use gosmpp.Buffer.{read_c_string, write_c_string}
use gosmpp.Globals.{Globals}
use gosmpp.Header.{Header}
use gosmpp.Base
use gosmpp.Base.{Base, new_base, set_command_id, set_sequence_number}
use gosmpp.CommandId
use gosmpp.Pdu.SubmitSm.{SubmitSm}

pub record SubmitSmResp : Type 0 where
  pub base : Base
  pub message_id : Bytes

unfoldable pub new : Globals → SubmitSmResp × Globals
new g =
    let (base, g') = new_base g in
    (record { base = set_command_id CommandId.submit_sm_resp base; message_id = [] }, g')

unfoldable pub new_from_req : Globals → SubmitSm → SubmitSmResp × Globals
new_from_req g req =
    let (c, g') = new g in
    (record c { base = set_sequence_number req.base.header.sequence_number c.base }, g')

-- The bodyWriter and the bodyReader.
unfoldable pub write_body : SubmitSmResp → Bytes
write_body c = writes (write_c_string c.message_id ∷ [])

-- `if errors.Is(err, io.EOF) { return nil }`, with the empty string that ReadCString then returns.
unfoldable pub forgive_eof : SubmitSmResp → Outcome Bytes → Outcome SubmitSmResp
forgive_eof c (ok message_id b) = ok (record c { message_id = message_id }) b
forgive_eof c (err eof b) = ok (record c { message_id = [] }) b
forgive_eof c (err e b) = err e b

unfoldable pub read_body : SubmitSmResp → Reader SubmitSmResp
unfolding forgive_eof
read_body c b = forgive_eof c (read_c_string b)

unfoldable pub marshal : SubmitSmResp → SubmitSmResp × Bytes
marshal c =
    let (base, bytes) = Base.marshal c.base (write_body c) in (record c { base = base }, bytes)

unfoldable pub unmarshal : SubmitSmResp → Reader SubmitSmResp
unmarshal c = do
  (base, c') ← Base.unmarshal c.base (λ (_ : Header). read_body c)
  pure (record c' { base = base })
