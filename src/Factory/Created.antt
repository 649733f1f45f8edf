-- ===== src/Factory/Created.antt =====
-- CreatePDUFromCmdID of pdu/PDUFactory.go makes, for the command identifier of a PDU, a PDU of its
-- own type that is ready to be read into.
use gosmpp.Globals.{Globals}
use gosmpp.Packet.{Pdu}
use gosmpp.Factory.Typed.{IsTyped, Creates}
use gosmpp.Factory.Requests.{
  alert_notification-Creates, bind_request-Creates, cancel_sm-Creates, data_sm-Creates,
  deliver_sm-Creates, enquire_link-Creates, outbind-Creates, query_sm-Creates, replace_sm-Creates,
  submit_multi-Creates, submit_sm-Creates, unbind-Creates,
}
use gosmpp.Factory.Responses.{
  bind_resp-Creates, cancel_sm_resp-Creates, data_sm_resp-Creates, deliver_sm_resp-Creates,
  enquire_link_resp-Creates, generic_nack-Creates, query_sm_resp-Creates, replace_sm_resp-Creates,
  submit_multi_resp-Creates, submit_sm_resp-Creates, unbind_resp-Creates,
}

-- For the command identifier of a PDU of any of the 23 types, CreatePDUFromCmdID creates a PDU of
-- the same type that has read nothing yet, ready to unmarshal it.
pub create_pdu_from_cmd_id-Creates : (g : Globals) (p : Pdu) → IsTyped p → Creates g p
create_pdu_from_cmd_id-Creates g (Pdu.alert_notification c) h = alert_notification-Creates g c h
create_pdu_from_cmd_id-Creates g (Pdu.bind_request c) h = bind_request-Creates g c h
create_pdu_from_cmd_id-Creates g (Pdu.bind_resp c) h = bind_resp-Creates g c h
create_pdu_from_cmd_id-Creates g (Pdu.cancel_sm c) h = cancel_sm-Creates g c h
create_pdu_from_cmd_id-Creates g (Pdu.cancel_sm_resp c) h = cancel_sm_resp-Creates g c h
create_pdu_from_cmd_id-Creates g (Pdu.data_sm c) h = data_sm-Creates g c h
create_pdu_from_cmd_id-Creates g (Pdu.data_sm_resp c) h = data_sm_resp-Creates g c h
create_pdu_from_cmd_id-Creates g (Pdu.deliver_sm c) h = deliver_sm-Creates g c h
create_pdu_from_cmd_id-Creates g (Pdu.deliver_sm_resp c) h = deliver_sm_resp-Creates g c h
create_pdu_from_cmd_id-Creates g (Pdu.enquire_link c) h = enquire_link-Creates g c h
create_pdu_from_cmd_id-Creates g (Pdu.enquire_link_resp c) h = enquire_link_resp-Creates g c h
create_pdu_from_cmd_id-Creates g (Pdu.generic_nack c) h = generic_nack-Creates g c h
create_pdu_from_cmd_id-Creates g (Pdu.outbind c) h = outbind-Creates g c h
create_pdu_from_cmd_id-Creates g (Pdu.query_sm c) h = query_sm-Creates g c h
create_pdu_from_cmd_id-Creates g (Pdu.query_sm_resp c) h = query_sm_resp-Creates g c h
create_pdu_from_cmd_id-Creates g (Pdu.replace_sm c) h = replace_sm-Creates g c h
create_pdu_from_cmd_id-Creates g (Pdu.replace_sm_resp c) h = replace_sm_resp-Creates g c h
create_pdu_from_cmd_id-Creates g (Pdu.submit_multi c) h = submit_multi-Creates g c h
create_pdu_from_cmd_id-Creates g (Pdu.submit_multi_resp c) h = submit_multi_resp-Creates g c h
create_pdu_from_cmd_id-Creates g (Pdu.submit_sm c) h = submit_sm-Creates g c h
create_pdu_from_cmd_id-Creates g (Pdu.submit_sm_resp c) h = submit_sm_resp-Creates g c h
create_pdu_from_cmd_id-Creates g (Pdu.unbind c) h = unbind-Creates g c h
create_pdu_from_cmd_id-Creates g (Pdu.unbind_resp c) h = unbind_resp-Creates g c h
