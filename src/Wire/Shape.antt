-- ===== src/Wire/Shape.antt =====
-- What Marshal writes for a PDU of any type: a header at least, with the command identifier of the PDU.
use gosmpp.Prelude.{◌≡◌, ◌≤◌, length}
use gosmpp.Base.RoundTrip.{wire_min, framed_id}
use gosmpp.Packet.{Pdu, base_of}
use gosmpp.Wire.{marshal}
use gosmpp.Wire.RoundTrip.{arrived}
use gosmpp.Pdu.AlertNotification
use gosmpp.Pdu.BindRequest
use gosmpp.Pdu.BindResp
use gosmpp.Pdu.CancelSm
use gosmpp.Pdu.CancelSmResp
use gosmpp.Pdu.DataSm
use gosmpp.Pdu.DataSmResp
use gosmpp.Pdu.DeliverSm
use gosmpp.Pdu.DeliverSmResp
use gosmpp.Pdu.EnquireLink
use gosmpp.Pdu.EnquireLinkResp
use gosmpp.Pdu.GenericNack
use gosmpp.Pdu.Outbind
use gosmpp.Pdu.QuerySm
use gosmpp.Pdu.QuerySmResp
use gosmpp.Pdu.ReplaceSm
use gosmpp.Pdu.ReplaceSmResp
use gosmpp.Pdu.SubmitMulti
use gosmpp.Pdu.SubmitMultiResp
use gosmpp.Pdu.SubmitSm
use gosmpp.Pdu.SubmitSmResp
use gosmpp.Pdu.Unbind
use gosmpp.Pdu.UnbindResp

pub length-marshal-ge : (p : Pdu) → 16 ≤ length (marshal p).1
unfolding marshal AlertNotification.marshal BindRequest.marshal BindResp.marshal CancelSm.marshal
    CancelSmResp.marshal DataSm.marshal DataSmResp.marshal DeliverSm.marshal DeliverSmResp.marshal
    EnquireLink.marshal EnquireLinkResp.marshal GenericNack.marshal Outbind.marshal QuerySm.marshal
    QuerySmResp.marshal ReplaceSm.marshal ReplaceSmResp.marshal SubmitMulti.marshal
    SubmitMultiResp.marshal SubmitSm.marshal SubmitSmResp.marshal Unbind.marshal UnbindResp.marshal
length-marshal-ge (Pdu.alert_notification c) = wire_min c.base (AlertNotification.write_body c)
length-marshal-ge (Pdu.bind_request c) = wire_min c.base (BindRequest.write_body c)
length-marshal-ge (Pdu.bind_resp c) = wire_min c.base (BindResp.write_body c)
length-marshal-ge (Pdu.cancel_sm c) = wire_min c.base (CancelSm.write_body c)
length-marshal-ge (Pdu.cancel_sm_resp c) = wire_min c.base (CancelSmResp.write_body c)
length-marshal-ge (Pdu.data_sm c) = wire_min c.base (DataSm.write_body c)
length-marshal-ge (Pdu.data_sm_resp c) = wire_min c.base (DataSmResp.write_body c)
length-marshal-ge (Pdu.deliver_sm c) = wire_min c.base (DeliverSm.write_body c)
length-marshal-ge (Pdu.deliver_sm_resp c) = wire_min c.base (DeliverSmResp.write_body c)
length-marshal-ge (Pdu.enquire_link c) = wire_min c.base (EnquireLink.write_body c)
length-marshal-ge (Pdu.enquire_link_resp c) = wire_min c.base (EnquireLinkResp.write_body c)
length-marshal-ge (Pdu.generic_nack c) = wire_min c.base (GenericNack.write_body c)
length-marshal-ge (Pdu.outbind c) = wire_min c.base (Outbind.write_body c)
length-marshal-ge (Pdu.query_sm c) = wire_min c.base (QuerySm.write_body c)
length-marshal-ge (Pdu.query_sm_resp c) = wire_min c.base (QuerySmResp.write_body c)
length-marshal-ge (Pdu.replace_sm c) = wire_min c.base (ReplaceSm.write_body c)
length-marshal-ge (Pdu.replace_sm_resp c) = wire_min c.base (ReplaceSmResp.write_body c)
length-marshal-ge (Pdu.submit_multi c) = wire_min c.base (SubmitMulti.write_body c)
length-marshal-ge (Pdu.submit_multi_resp c) = wire_min c.base (SubmitMultiResp.write_body c)
length-marshal-ge (Pdu.submit_sm c) = wire_min c.base (SubmitSm.write_body c)
length-marshal-ge (Pdu.submit_sm_resp c) = wire_min c.base (SubmitSmResp.write_body c)
length-marshal-ge (Pdu.unbind c) = wire_min c.base (Unbind.write_body c)
length-marshal-ge (Pdu.unbind_resp c) = wire_min c.base (UnbindResp.write_body c)

pub arrived_id : (p : Pdu) → (base_of (arrived p)).header.command_id ≡ (base_of p).header.command_id
unfolding AlertNotification.marshal BindRequest.marshal BindResp.marshal CancelSm.marshal
    CancelSmResp.marshal DataSm.marshal DataSmResp.marshal DeliverSm.marshal DeliverSmResp.marshal
    EnquireLink.marshal EnquireLinkResp.marshal GenericNack.marshal Outbind.marshal QuerySm.marshal
    QuerySmResp.marshal ReplaceSm.marshal ReplaceSmResp.marshal SubmitMulti.marshal
    SubmitMultiResp.marshal SubmitSm.marshal SubmitSmResp.marshal Unbind.marshal UnbindResp.marshal
arrived_id (Pdu.alert_notification c) = framed_id c.base (AlertNotification.write_body c)
arrived_id (Pdu.bind_request c) = framed_id c.base (BindRequest.write_body c)
arrived_id (Pdu.bind_resp c) = framed_id c.base (BindResp.write_body c)
arrived_id (Pdu.cancel_sm c) = framed_id c.base (CancelSm.write_body c)
arrived_id (Pdu.cancel_sm_resp c) = framed_id c.base (CancelSmResp.write_body c)
arrived_id (Pdu.data_sm c) = framed_id c.base (DataSm.write_body c)
arrived_id (Pdu.data_sm_resp c) = framed_id c.base (DataSmResp.write_body c)
arrived_id (Pdu.deliver_sm c) = framed_id c.base (DeliverSm.write_body c)
arrived_id (Pdu.deliver_sm_resp c) = framed_id c.base (DeliverSmResp.write_body c)
arrived_id (Pdu.enquire_link c) = framed_id c.base (EnquireLink.write_body c)
arrived_id (Pdu.enquire_link_resp c) = framed_id c.base (EnquireLinkResp.write_body c)
arrived_id (Pdu.generic_nack c) = framed_id c.base (GenericNack.write_body c)
arrived_id (Pdu.outbind c) = framed_id c.base (Outbind.write_body c)
arrived_id (Pdu.query_sm c) = framed_id c.base (QuerySm.write_body c)
arrived_id (Pdu.query_sm_resp c) = framed_id c.base (QuerySmResp.write_body c)
arrived_id (Pdu.replace_sm c) = framed_id c.base (ReplaceSm.write_body c)
arrived_id (Pdu.replace_sm_resp c) = framed_id c.base (ReplaceSmResp.write_body c)
arrived_id (Pdu.submit_multi c) = framed_id c.base (SubmitMulti.write_body c)
arrived_id (Pdu.submit_multi_resp c) = framed_id c.base (SubmitMultiResp.write_body c)
arrived_id (Pdu.submit_sm c) = framed_id c.base (SubmitSm.write_body c)
arrived_id (Pdu.submit_sm_resp c) = framed_id c.base (SubmitSmResp.write_body c)
arrived_id (Pdu.unbind c) = framed_id c.base (Unbind.write_body c)
arrived_id (Pdu.unbind_resp c) = framed_id c.base (UnbindResp.write_body c)
