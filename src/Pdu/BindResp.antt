-- ===== src/Pdu/BindResp.antt =====
-- BindResp of pdu/BindResponse.go.
pub mod RoundTrip
pub mod Refused
use gosmpp.Prelude.{ℕ, [], ◌∷◌, Bool, ◌||◌, ◌==◌, if◌then◌else◌}
use gosmpp.Outcome.{Bytes, Reader, pure, ◌>>=◌, writes}
use gosmpp.Buffer.{read_c_string, write_c_string}
use gosmpp.Globals.{Globals}
use gosmpp.Header.{Header}
use gosmpp.Base
use gosmpp.Base.{Base, new_base, set_command_id, set_sequence_number}
use gosmpp.CommandId
use gosmpp.Pdu.BindRequest.{BindRequest, BindingType, receiver, transceiver, transmitter}

pub record BindResp : Type 0 where
  pub base : Base
  pub system_id : Bytes

-- The three constructors differ in the command identifier alone.
new_with_id : ℕ → Globals → BindResp × Globals
new_with_id id g =
    let (base, g') = new_base g in (record { base = set_command_id id base; system_id = [] }, g')

unfoldable pub new_bind_transmitter_resp : Globals → BindResp × Globals
unfolding new_with_id
new_bind_transmitter_resp = new_with_id CommandId.bind_transmitter_resp

unfoldable pub new_bind_transceiver_resp : Globals → BindResp × Globals
unfolding new_with_id
new_bind_transceiver_resp = new_with_id CommandId.bind_transceiver_resp

unfoldable pub new_bind_receiver_resp : Globals → BindResp × Globals
unfolding new_with_id
new_bind_receiver_resp = new_with_id CommandId.bind_receiver_resp

abbrev pub resp_id : BindingType → ℕ
resp_id transceiver = CommandId.bind_transceiver_resp
resp_id receiver = CommandId.bind_receiver_resp
resp_id transmitter = CommandId.bind_transmitter_resp

-- NewBindResp
unfoldable pub new : Globals → BindRequest → BindResp × Globals
new g req =
    let (base, g') = new_base g in
    let base' = set_sequence_number req.base.header.sequence_number base in
    (record { base = set_command_id (resp_id req.binding_type) base'; system_id = [] }, g')

unfoldable pub write_body : BindResp → Bytes
write_body c = writes (write_c_string c.system_id ∷ [])

-- `c.CommandID == data.BIND_TRANSCEIVER_RESP || c.CommandStatus == data.ESME_ROK`
abbrev pub has_system_id : Header → Bool
has_system_id h = h.command_id == CommandId.bind_transceiver_resp || h.command_status == 0

-- The header is the one just read.
unfoldable pub read_body : BindResp → Header → Reader BindResp
read_body c h =
    if has_system_id h
    then (do system_id ← read_c_string; pure (record c { system_id = system_id }))
    else pure c

unfoldable pub marshal : BindResp → BindResp × Bytes
marshal c =
    let (base, bytes) = Base.marshal c.base (write_body c) in (record c { base = base }, bytes)

unfoldable pub unmarshal : BindResp → Reader BindResp
unmarshal c = do (base, c') ← Base.unmarshal c.base (read_body c); pure (record c' { base = base })
