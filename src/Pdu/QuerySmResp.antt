-- ===== src/Pdu/QuerySmResp.antt =====
-- QuerySMResp of pdu/QuerySMResp.go.
pub mod RoundTrip
use gosmpp.Prelude.{ℕ, [], ◌∷◌}
use gosmpp.Outcome.{Bytes, Reader, pure, ◌>>=◌, writes}
use gosmpp.Buffer.{read_byte, write_byte, read_c_string, write_c_string}
use gosmpp.Globals.{Globals}
use gosmpp.Header.{Header}
use gosmpp.Base
use gosmpp.Base.{Base, new_base, set_command_id, set_sequence_number}
use gosmpp.CommandId
use gosmpp.Pdu.QuerySm.{QuerySm}

pub record QuerySmResp : Type 0 where
  pub base : Base
  pub message_id : Bytes
  pub final_date : Bytes
  pub message_state : ℕ
  pub error_code : ℕ

unfoldable pub new : Globals → QuerySmResp × Globals
new g =
    let (base, g') = new_base g in
    (
      record {
        base = set_command_id CommandId.query_sm_resp base;
        message_id = [];
        final_date = [];
        message_state = 0;
        error_code = 0;
      },
      g',
    )

unfoldable pub new_from_req : Globals → QuerySm → QuerySmResp × Globals
new_from_req g req =
    let (c, g') = new g in
    (record c { base = set_sequence_number req.base.header.sequence_number c.base }, g')

-- The bodyWriter and the bodyReader.
unfoldable pub write_body : QuerySmResp → Bytes
write_body c = writes (
    write_c_string c.message_id
    ∷ write_c_string c.final_date
    ∷ write_byte c.message_state
    ∷ write_byte c.error_code
    ∷ [])

unfoldable pub read_body : QuerySmResp → Reader QuerySmResp
read_body c = do
  message_id ← read_c_string
  final_date ← read_c_string
  message_state ← read_byte
  error_code ← read_byte
  pure (record c {
    message_id = message_id;
    final_date = final_date;
    message_state = message_state;
    error_code = error_code;
  })

unfoldable pub marshal : QuerySmResp → QuerySmResp × Bytes
marshal c =
    let (base, bytes) = Base.marshal c.base (write_body c) in (record c { base = base }, bytes)

unfoldable pub unmarshal : QuerySmResp → Reader QuerySmResp
unmarshal c = do
  (base, c') ← Base.unmarshal c.base (λ (_ : Header). read_body c)
  pure (record c' { base = base })
