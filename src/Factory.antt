-- ===== src/Factory.antt =====
-- pduMap and CreatePDUFromCmdID of pdu/PDUFactory.go.
pub mod Typed
pub mod Requests
pub mod Responses
pub mod Created
use gosmpp.Prelude.{ℕ, ◌==◌, if◌then◌else◌, ◌⊎◌, inl, inr}
use gosmpp.Outcome.{Error, unknown_command_id}
use gosmpp.Globals.{Globals}
use gosmpp.CommandId
use gosmpp.Pdu.AlertNotification
use gosmpp.Pdu.BindRequest
use gosmpp.Pdu.BindRequest.{receiver, transceiver, transmitter}
use gosmpp.Pdu.BindResp
use gosmpp.Pdu.CancelSm
use gosmpp.Pdu.CancelSmResp
use gosmpp.Pdu.DataSm
use gosmpp.Pdu.DataSmResp
use gosmpp.Pdu.DeliverSm
use gosmpp.Pdu.DeliverSmResp
use gosmpp.Pdu.EnquireLink
use gosmpp.Pdu.EnquireLinkResp
use gosmpp.Pdu.GenericNack
use gosmpp.Pdu.Outbind
use gosmpp.Pdu.QuerySm
use gosmpp.Pdu.QuerySmResp
use gosmpp.Pdu.ReplaceSm
use gosmpp.Pdu.ReplaceSmResp
use gosmpp.Pdu.SubmitMulti
use gosmpp.Pdu.SubmitMultiResp
use gosmpp.Pdu.SubmitSm
use gosmpp.Pdu.SubmitSmResp
use gosmpp.Pdu.Unbind
use gosmpp.Pdu.UnbindResp
use gosmpp.Packet.{
  Pdu, alert_notification, bind_request, bind_resp, cancel_sm, cancel_sm_resp, data_sm,
  data_sm_resp, deliver_sm, deliver_sm_resp, enquire_link, enquire_link_resp, generic_nack, outbind,
  query_sm, query_sm_resp, replace_sm, replace_sm_resp, submit_multi, submit_multi_resp, submit_sm,
  submit_sm_resp, unbind, unbind_resp,
}

-- The generators of pduMap.
abbrev pub generated {ℓ} :
    {A : Type ℓ} → (A → Pdu) → (Globals → A × Globals) → Globals → (Error ⊎ Pdu) × Globals
generated wrap generator g = let (c, g') = generator g in (inr (wrap c), g')

unfoldable pub create_pdu_from_cmd_id : Globals → ℕ → (Error ⊎ Pdu) × Globals
create_pdu_from_cmd_id g cmd_id =
    if cmd_id == CommandId.bind_transmitter
    then generated bind_request (BindRequest.new transmitter) g
    else if cmd_id == CommandId.bind_transmitter_resp
    then generated bind_resp BindResp.new_bind_transmitter_resp g
    else if cmd_id == CommandId.bind_transceiver
    then generated bind_request (BindRequest.new transceiver) g
    else if cmd_id == CommandId.bind_transceiver_resp
    then generated bind_resp BindResp.new_bind_transceiver_resp g
    else if cmd_id == CommandId.bind_receiver
    then generated bind_request (BindRequest.new receiver) g
    else if cmd_id == CommandId.bind_receiver_resp
    then generated bind_resp BindResp.new_bind_receiver_resp g
    else if cmd_id == CommandId.unbind
    then generated unbind Unbind.new g
    else if cmd_id == CommandId.unbind_resp
    then generated unbind_resp UnbindResp.new g
    else if cmd_id == CommandId.outbind
    then generated outbind Outbind.new g
    else if cmd_id == CommandId.submit_sm
    then generated submit_sm SubmitSm.new g
    else if cmd_id == CommandId.submit_sm_resp
    then generated submit_sm_resp SubmitSmResp.new g
    else if cmd_id == CommandId.submit_multi
    then generated submit_multi SubmitMulti.new g
    else if cmd_id == CommandId.submit_multi_resp
    then generated submit_multi_resp SubmitMultiResp.new g
    else if cmd_id == CommandId.deliver_sm
    then generated deliver_sm DeliverSm.new g
    else if cmd_id == CommandId.deliver_sm_resp
    then generated deliver_sm_resp DeliverSmResp.new g
    else if cmd_id == CommandId.data_sm
    then generated data_sm DataSm.new g
    else if cmd_id == CommandId.data_sm_resp
    then generated data_sm_resp DataSmResp.new g
    else if cmd_id == CommandId.query_sm
    then (inr (query_sm (QuerySm.new g)), g)
    else if cmd_id == CommandId.query_sm_resp
    then generated query_sm_resp QuerySmResp.new g
    else if cmd_id == CommandId.cancel_sm
    then generated cancel_sm CancelSm.new g
    else if cmd_id == CommandId.cancel_sm_resp
    then generated cancel_sm_resp CancelSmResp.new g
    else if cmd_id == CommandId.replace_sm
    then generated replace_sm ReplaceSm.new g
    else if cmd_id == CommandId.replace_sm_resp
    then generated replace_sm_resp ReplaceSmResp.new g
    else if cmd_id == CommandId.enquire_link
    then generated enquire_link EnquireLink.new g
    else if cmd_id == CommandId.enquire_link_resp
    then generated enquire_link_resp EnquireLinkResp.new g
    else if cmd_id == CommandId.alert_notification
    then generated alert_notification AlertNotification.new g
    else if cmd_id == CommandId.generic_nack
    then generated generic_nack GenericNack.new g
    else (inl unknown_command_id, g)
