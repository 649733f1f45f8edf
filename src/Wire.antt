-- ===== src/Wire.antt =====
-- Marshal and Unmarshal of the PDU interface (pdu/PDU.go), dispatched to the types.
pub mod RoundTrip
pub mod Consumption
pub mod Framing
pub mod Sequence
pub mod Shape
use gosmpp.Outcome.{Bytes, Reader, pure, ◌>>=◌}
use gosmpp.Pdu.AlertNotification
use gosmpp.Pdu.BindRequest
use gosmpp.Pdu.BindResp
use gosmpp.Pdu.CancelSm
use gosmpp.Pdu.CancelSmResp
use gosmpp.Pdu.DataSm
use gosmpp.Pdu.DataSmResp
use gosmpp.Pdu.DeliverSm
use gosmpp.Pdu.DeliverSmResp
use gosmpp.Pdu.EnquireLink
use gosmpp.Pdu.EnquireLinkResp
use gosmpp.Pdu.GenericNack
use gosmpp.Pdu.Outbind
use gosmpp.Pdu.QuerySm
use gosmpp.Pdu.QuerySmResp
use gosmpp.Pdu.ReplaceSm
use gosmpp.Pdu.ReplaceSmResp
use gosmpp.Pdu.SubmitMulti
use gosmpp.Pdu.SubmitMultiResp
use gosmpp.Pdu.SubmitSm
use gosmpp.Pdu.SubmitSmResp
use gosmpp.Pdu.Unbind
use gosmpp.Pdu.UnbindResp
use gosmpp.Packet.{
  Pdu, alert_notification, bind_request, bind_resp, cancel_sm, cancel_sm_resp, data_sm,
  data_sm_resp, deliver_sm, deliver_sm_resp, enquire_link, enquire_link_resp, generic_nack, outbind,
  query_sm, query_sm_resp, replace_sm, replace_sm_resp, submit_multi, submit_multi_resp, submit_sm,
  submit_sm_resp, unbind, unbind_resp,
}

unfoldable pub marshal : Pdu → Pdu × Bytes
marshal (alert_notification c) =
    let (c', bytes) = AlertNotification.marshal c in (alert_notification c', bytes)
marshal (bind_request c) = let (c', bytes) = BindRequest.marshal c in (bind_request c', bytes)
marshal (bind_resp c) = let (c', bytes) = BindResp.marshal c in (bind_resp c', bytes)
marshal (cancel_sm c) = let (c', bytes) = CancelSm.marshal c in (cancel_sm c', bytes)
marshal (cancel_sm_resp c) = let (c', bytes) = CancelSmResp.marshal c in (cancel_sm_resp c', bytes)
marshal (data_sm c) = let (c', bytes) = DataSm.marshal c in (data_sm c', bytes)
marshal (data_sm_resp c) = let (c', bytes) = DataSmResp.marshal c in (data_sm_resp c', bytes)
marshal (deliver_sm c) = let (c', bytes) = DeliverSm.marshal c in (deliver_sm c', bytes)
marshal (deliver_sm_resp c) =
    let (c', bytes) = DeliverSmResp.marshal c in (deliver_sm_resp c', bytes)
marshal (enquire_link c) = let (c', bytes) = EnquireLink.marshal c in (enquire_link c', bytes)
marshal (enquire_link_resp c) =
    let (c', bytes) = EnquireLinkResp.marshal c in (enquire_link_resp c', bytes)
marshal (generic_nack c) = let (c', bytes) = GenericNack.marshal c in (generic_nack c', bytes)
marshal (outbind c) = let (c', bytes) = Outbind.marshal c in (outbind c', bytes)
marshal (query_sm c) = let (c', bytes) = QuerySm.marshal c in (query_sm c', bytes)
marshal (query_sm_resp c) = let (c', bytes) = QuerySmResp.marshal c in (query_sm_resp c', bytes)
marshal (replace_sm c) = let (c', bytes) = ReplaceSm.marshal c in (replace_sm c', bytes)
marshal (replace_sm_resp c) =
    let (c', bytes) = ReplaceSmResp.marshal c in (replace_sm_resp c', bytes)
marshal (submit_multi c) = let (c', bytes) = SubmitMulti.marshal c in (submit_multi c', bytes)
marshal (submit_multi_resp c) =
    let (c', bytes) = SubmitMultiResp.marshal c in (submit_multi_resp c', bytes)
marshal (submit_sm c) = let (c', bytes) = SubmitSm.marshal c in (submit_sm c', bytes)
marshal (submit_sm_resp c) = let (c', bytes) = SubmitSmResp.marshal c in (submit_sm_resp c', bytes)
marshal (unbind c) = let (c', bytes) = Unbind.marshal c in (unbind c', bytes)
marshal (unbind_resp c) = let (c', bytes) = UnbindResp.marshal c in (unbind_resp c', bytes)

unfoldable pub unmarshal : Pdu → Reader Pdu
unmarshal (alert_notification c) = do
  c' ← AlertNotification.unmarshal c
  pure (alert_notification c')
unmarshal (bind_request c) = do c' ← BindRequest.unmarshal c; pure (bind_request c')
unmarshal (bind_resp c) = do c' ← BindResp.unmarshal c; pure (bind_resp c')
unmarshal (cancel_sm c) = do c' ← CancelSm.unmarshal c; pure (cancel_sm c')
unmarshal (cancel_sm_resp c) = do c' ← CancelSmResp.unmarshal c; pure (cancel_sm_resp c')
unmarshal (data_sm c) = do c' ← DataSm.unmarshal c; pure (data_sm c')
unmarshal (data_sm_resp c) = do c' ← DataSmResp.unmarshal c; pure (data_sm_resp c')
unmarshal (deliver_sm c) = do c' ← DeliverSm.unmarshal c; pure (deliver_sm c')
unmarshal (deliver_sm_resp c) = do c' ← DeliverSmResp.unmarshal c; pure (deliver_sm_resp c')
unmarshal (enquire_link c) = do c' ← EnquireLink.unmarshal c; pure (enquire_link c')
unmarshal (enquire_link_resp c) = do c' ← EnquireLinkResp.unmarshal c; pure (enquire_link_resp c')
unmarshal (generic_nack c) = do c' ← GenericNack.unmarshal c; pure (generic_nack c')
unmarshal (outbind c) = do c' ← Outbind.unmarshal c; pure (outbind c')
unmarshal (query_sm c) = do c' ← QuerySm.unmarshal c; pure (query_sm c')
unmarshal (query_sm_resp c) = do c' ← QuerySmResp.unmarshal c; pure (query_sm_resp c')
unmarshal (replace_sm c) = do c' ← ReplaceSm.unmarshal c; pure (replace_sm c')
unmarshal (replace_sm_resp c) = do c' ← ReplaceSmResp.unmarshal c; pure (replace_sm_resp c')
unmarshal (submit_multi c) = do c' ← SubmitMulti.unmarshal c; pure (submit_multi c')
unmarshal (submit_multi_resp c) = do c' ← SubmitMultiResp.unmarshal c; pure (submit_multi_resp c')
unmarshal (submit_sm c) = do c' ← SubmitSm.unmarshal c; pure (submit_sm c')
unmarshal (submit_sm_resp c) = do c' ← SubmitSmResp.unmarshal c; pure (submit_sm_resp c')
unmarshal (unbind c) = do c' ← Unbind.unmarshal c; pure (unbind c')
unmarshal (unbind_resp c) = do c' ← UnbindResp.unmarshal c; pure (unbind_resp c')
