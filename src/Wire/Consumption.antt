-- ===== src/Wire/Consumption.antt =====
-- How far the Unmarshal methods of the PDU types move the front of the buffer.
use gosmpp.Buffer.Consumption.{Consumes, Consumes-bind, Consumes-pure}
use gosmpp.Packet.{
  Pdu, alert_notification, bind_request, bind_resp, cancel_sm, cancel_sm_resp, data_sm,
  data_sm_resp, deliver_sm, deliver_sm_resp, enquire_link, enquire_link_resp, generic_nack, outbind,
  query_sm, query_sm_resp, replace_sm, replace_sm_resp, submit_multi, submit_multi_resp, submit_sm,
  submit_sm_resp, unbind, unbind_resp,
}
use gosmpp.Wire.{unmarshal}
use gosmpp.Pdu.AlertNotification.RoundTrip as AlertNotificationTrip
use gosmpp.Pdu.BindRequest.RoundTrip as BindRequestTrip
use gosmpp.Pdu.BindResp.RoundTrip as BindRespTrip
use gosmpp.Pdu.CancelSm.RoundTrip as CancelSmTrip
use gosmpp.Pdu.CancelSmResp.RoundTrip as CancelSmRespTrip
use gosmpp.Pdu.DataSm.RoundTrip as DataSmTrip
use gosmpp.Pdu.DataSmResp.RoundTrip as DataSmRespTrip
use gosmpp.Pdu.DeliverSm.RoundTrip as DeliverSmTrip
use gosmpp.Pdu.DeliverSmResp.RoundTrip as DeliverSmRespTrip
use gosmpp.Pdu.EnquireLink.RoundTrip as EnquireLinkTrip
use gosmpp.Pdu.EnquireLinkResp.RoundTrip as EnquireLinkRespTrip
use gosmpp.Pdu.GenericNack.RoundTrip as GenericNackTrip
use gosmpp.Pdu.Outbind.RoundTrip as OutbindTrip
use gosmpp.Pdu.QuerySm.RoundTrip as QuerySmTrip
use gosmpp.Pdu.QuerySmResp.RoundTrip as QuerySmRespTrip
use gosmpp.Pdu.ReplaceSm.RoundTrip as ReplaceSmTrip
use gosmpp.Pdu.ReplaceSmResp.RoundTrip as ReplaceSmRespTrip
use gosmpp.Pdu.SubmitMulti.RoundTrip as SubmitMultiTrip
use gosmpp.Pdu.SubmitMultiResp.RoundTrip as SubmitMultiRespTrip
use gosmpp.Pdu.SubmitSm.RoundTrip as SubmitSmTrip
use gosmpp.Pdu.SubmitSmResp.RoundTrip as SubmitSmRespTrip
use gosmpp.Pdu.Unbind.RoundTrip as UnbindTrip
use gosmpp.Pdu.UnbindResp.RoundTrip as UnbindRespTrip

-- Unmarshal of any PDU type takes bytes from the front of the buffer only, whether it succeeds or
-- not: what is left is an end of what was there.
pub pdu-Consumes : (p : Pdu) → Consumes (unmarshal p)
unfolding unmarshal
pdu-Consumes (alert_notification c) =
    Consumes-bind _ (AlertNotificationTrip.alert_notification-Consumes c) λ _. Consumes-pure _
pdu-Consumes (bind_request c) =
    Consumes-bind _ (BindRequestTrip.bind_request-Consumes c) λ _. Consumes-pure _
pdu-Consumes (bind_resp c) =
    Consumes-bind _ (BindRespTrip.bind_resp-Consumes c) λ _. Consumes-pure _
pdu-Consumes (cancel_sm c) =
    Consumes-bind _ (CancelSmTrip.cancel_sm-Consumes c) λ _. Consumes-pure _
pdu-Consumes (cancel_sm_resp c) =
    Consumes-bind _ (CancelSmRespTrip.cancel_sm_resp-Consumes c) λ _. Consumes-pure _
pdu-Consumes (data_sm c) = Consumes-bind _ (DataSmTrip.data_sm-Consumes c) λ _. Consumes-pure _
pdu-Consumes (data_sm_resp c) =
    Consumes-bind _ (DataSmRespTrip.data_sm_resp-Consumes c) λ _. Consumes-pure _
pdu-Consumes (deliver_sm c) =
    Consumes-bind _ (DeliverSmTrip.deliver_sm-Consumes c) λ _. Consumes-pure _
pdu-Consumes (deliver_sm_resp c) =
    Consumes-bind _ (DeliverSmRespTrip.deliver_sm_resp-Consumes c) λ _. Consumes-pure _
pdu-Consumes (enquire_link c) =
    Consumes-bind _ (EnquireLinkTrip.enquire_link-Consumes c) λ _. Consumes-pure _
pdu-Consumes (enquire_link_resp c) =
    Consumes-bind _ (EnquireLinkRespTrip.enquire_link_resp-Consumes c) λ _. Consumes-pure _
pdu-Consumes (generic_nack c) =
    Consumes-bind _ (GenericNackTrip.generic_nack-Consumes c) λ _. Consumes-pure _
pdu-Consumes (outbind c) = Consumes-bind _ (OutbindTrip.outbind-Consumes c) λ _. Consumes-pure _
pdu-Consumes (query_sm c) = Consumes-bind _ (QuerySmTrip.query_sm-Consumes c) λ _. Consumes-pure _
pdu-Consumes (query_sm_resp c) =
    Consumes-bind _ (QuerySmRespTrip.query_sm_resp-Consumes c) λ _. Consumes-pure _
pdu-Consumes (replace_sm c) =
    Consumes-bind _ (ReplaceSmTrip.replace_sm-Consumes c) λ _. Consumes-pure _
pdu-Consumes (replace_sm_resp c) =
    Consumes-bind _ (ReplaceSmRespTrip.replace_sm_resp-Consumes c) λ _. Consumes-pure _
pdu-Consumes (submit_multi c) =
    Consumes-bind _ (SubmitMultiTrip.submit_multi-Consumes c) λ _. Consumes-pure _
pdu-Consumes (submit_multi_resp c) =
    Consumes-bind _ (SubmitMultiRespTrip.submit_multi_resp-Consumes c) λ _. Consumes-pure _
pdu-Consumes (submit_sm c) =
    Consumes-bind _ (SubmitSmTrip.submit_sm-Consumes c) λ _. Consumes-pure _
pdu-Consumes (submit_sm_resp c) =
    Consumes-bind _ (SubmitSmRespTrip.submit_sm_resp-Consumes c) λ _. Consumes-pure _
pdu-Consumes (unbind c) = Consumes-bind _ (UnbindTrip.unbind-Consumes c) λ _. Consumes-pure _
pdu-Consumes (unbind_resp c) =
    Consumes-bind _ (UnbindRespTrip.unbind_resp-Consumes c) λ _. Consumes-pure _
