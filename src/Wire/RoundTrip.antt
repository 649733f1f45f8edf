-- ===== src/Wire/RoundTrip.antt =====
-- What the PDU types of pdu/ have in common: each is read back from what it wrote.
use gosmpp.Outcome.{Decodes, Decodes-last}
use gosmpp.Packet.{Pdu}
use gosmpp.Wire.{marshal, unmarshal}
use gosmpp.Pdu.AlertNotification
use gosmpp.Pdu.AlertNotification.{AlertNotification}
use gosmpp.Pdu.AlertNotification.RoundTrip as AlertNotificationTrip
use gosmpp.Pdu.BindRequest
use gosmpp.Pdu.BindRequest.{BindRequest}
use gosmpp.Pdu.BindRequest.RoundTrip as BindRequestTrip
use gosmpp.Pdu.BindResp
use gosmpp.Pdu.BindResp.{BindResp}
use gosmpp.Pdu.BindResp.RoundTrip as BindRespTrip
use gosmpp.Pdu.CancelSm
use gosmpp.Pdu.CancelSm.{CancelSm}
use gosmpp.Pdu.CancelSm.RoundTrip as CancelSmTrip
use gosmpp.Pdu.CancelSmResp
use gosmpp.Pdu.CancelSmResp.{CancelSmResp}
use gosmpp.Pdu.CancelSmResp.RoundTrip as CancelSmRespTrip
use gosmpp.Pdu.DataSm
use gosmpp.Pdu.DataSm.{DataSm}
use gosmpp.Pdu.DataSm.RoundTrip as DataSmTrip
use gosmpp.Pdu.DataSmResp
use gosmpp.Pdu.DataSmResp.{DataSmResp}
use gosmpp.Pdu.DataSmResp.RoundTrip as DataSmRespTrip
use gosmpp.Pdu.DeliverSm
use gosmpp.Pdu.DeliverSm.{DeliverSm}
use gosmpp.Pdu.DeliverSm.RoundTrip as DeliverSmTrip
use gosmpp.Pdu.DeliverSmResp
use gosmpp.Pdu.DeliverSmResp.{DeliverSmResp}
use gosmpp.Pdu.DeliverSmResp.RoundTrip as DeliverSmRespTrip
use gosmpp.Pdu.EnquireLink
use gosmpp.Pdu.EnquireLink.{EnquireLink}
use gosmpp.Pdu.EnquireLink.RoundTrip as EnquireLinkTrip
use gosmpp.Pdu.EnquireLinkResp
use gosmpp.Pdu.EnquireLinkResp.{EnquireLinkResp}
use gosmpp.Pdu.EnquireLinkResp.RoundTrip as EnquireLinkRespTrip
use gosmpp.Pdu.GenericNack
use gosmpp.Pdu.GenericNack.{GenericNack}
use gosmpp.Pdu.GenericNack.RoundTrip as GenericNackTrip
use gosmpp.Pdu.Outbind
use gosmpp.Pdu.Outbind.{Outbind}
use gosmpp.Pdu.Outbind.RoundTrip as OutbindTrip
use gosmpp.Pdu.QuerySm
use gosmpp.Pdu.QuerySm.{QuerySm}
use gosmpp.Pdu.QuerySm.RoundTrip as QuerySmTrip
use gosmpp.Pdu.QuerySmResp
use gosmpp.Pdu.QuerySmResp.{QuerySmResp}
use gosmpp.Pdu.QuerySmResp.RoundTrip as QuerySmRespTrip
use gosmpp.Pdu.ReplaceSm
use gosmpp.Pdu.ReplaceSm.{ReplaceSm}
use gosmpp.Pdu.ReplaceSm.RoundTrip as ReplaceSmTrip
use gosmpp.Pdu.ReplaceSmResp
use gosmpp.Pdu.ReplaceSmResp.{ReplaceSmResp}
use gosmpp.Pdu.ReplaceSmResp.RoundTrip as ReplaceSmRespTrip
use gosmpp.Pdu.SubmitMulti
use gosmpp.Pdu.SubmitMulti.{SubmitMulti}
use gosmpp.Pdu.SubmitMulti.RoundTrip as SubmitMultiTrip
use gosmpp.Pdu.SubmitMultiResp
use gosmpp.Pdu.SubmitMultiResp.{SubmitMultiResp}
use gosmpp.Pdu.SubmitMultiResp.RoundTrip as SubmitMultiRespTrip
use gosmpp.Pdu.SubmitSm
use gosmpp.Pdu.SubmitSm.{SubmitSm}
use gosmpp.Pdu.SubmitSm.RoundTrip as SubmitSmTrip
use gosmpp.Pdu.SubmitSmResp
use gosmpp.Pdu.SubmitSmResp.{SubmitSmResp}
use gosmpp.Pdu.SubmitSmResp.RoundTrip as SubmitSmRespTrip
use gosmpp.Pdu.Unbind
use gosmpp.Pdu.Unbind.{Unbind}
use gosmpp.Pdu.Unbind.RoundTrip as UnbindTrip
use gosmpp.Pdu.UnbindResp
use gosmpp.Pdu.UnbindResp.{UnbindResp}
use gosmpp.Pdu.UnbindResp.RoundTrip as UnbindRespTrip

-- The fields fit their places on the wire.
abbrev pub IsSendable : Pdu → Type 0
IsSendable (Pdu.alert_notification c) = AlertNotificationTrip.IsSendable c
IsSendable (Pdu.bind_request c) = BindRequestTrip.IsSendable c
IsSendable (Pdu.bind_resp c) = BindRespTrip.IsSendable c
IsSendable (Pdu.cancel_sm c) = CancelSmTrip.IsSendable c
IsSendable (Pdu.cancel_sm_resp c) = CancelSmRespTrip.IsSendable c
IsSendable (Pdu.data_sm c) = DataSmTrip.IsSendable c
IsSendable (Pdu.data_sm_resp c) = DataSmRespTrip.IsSendable c
IsSendable (Pdu.deliver_sm c) = DeliverSmTrip.IsSendable c
IsSendable (Pdu.deliver_sm_resp c) = DeliverSmRespTrip.IsSendable c
IsSendable (Pdu.enquire_link c) = EnquireLinkTrip.IsSendable c
IsSendable (Pdu.enquire_link_resp c) = EnquireLinkRespTrip.IsSendable c
IsSendable (Pdu.generic_nack c) = GenericNackTrip.IsSendable c
IsSendable (Pdu.outbind c) = OutbindTrip.IsSendable c
IsSendable (Pdu.query_sm c) = QuerySmTrip.IsSendable c
IsSendable (Pdu.query_sm_resp c) = QuerySmRespTrip.IsSendable c
IsSendable (Pdu.replace_sm c) = ReplaceSmTrip.IsSendable c
IsSendable (Pdu.replace_sm_resp c) = ReplaceSmRespTrip.IsSendable c
IsSendable (Pdu.submit_multi c) = SubmitMultiTrip.IsSendable c
IsSendable (Pdu.submit_multi_resp c) = SubmitMultiRespTrip.IsSendable c
IsSendable (Pdu.submit_sm c) = SubmitSmTrip.IsSendable c
IsSendable (Pdu.submit_sm_resp c) = SubmitSmRespTrip.IsSendable c
IsSendable (Pdu.unbind c) = UnbindTrip.IsSendable c
IsSendable (Pdu.unbind_resp c) = UnbindRespTrip.IsSendable c

-- The first is a PDU of the same type as the second, into which nothing has been read.
pub data Fresh : Pdu → Pdu → Type 0 where
  alert_notification :
      {c0 c : AlertNotification}
      → AlertNotificationTrip.IsFresh c0 c
      → Fresh (Pdu.alert_notification c0) (Pdu.alert_notification c)
  bind_request :
      {c0 c : BindRequest}
      → BindRequestTrip.IsFresh c0 c
      → Fresh (Pdu.bind_request c0) (Pdu.bind_request c)
  bind_resp :
      {c0 c : BindResp} → BindRespTrip.IsFresh c0 c → Fresh (Pdu.bind_resp c0) (Pdu.bind_resp c)
  cancel_sm :
      {c0 c : CancelSm} → CancelSmTrip.IsFresh c0 c → Fresh (Pdu.cancel_sm c0) (Pdu.cancel_sm c)
  cancel_sm_resp :
      {c0 c : CancelSmResp}
      → CancelSmRespTrip.IsFresh c0 c
      → Fresh (Pdu.cancel_sm_resp c0) (Pdu.cancel_sm_resp c)
  data_sm : {c0 c : DataSm} → DataSmTrip.IsFresh c0 c → Fresh (Pdu.data_sm c0) (Pdu.data_sm c)
  data_sm_resp :
      {c0 c : DataSmResp}
      → DataSmRespTrip.IsFresh c0 c
      → Fresh (Pdu.data_sm_resp c0) (Pdu.data_sm_resp c)
  deliver_sm :
      {c0 c : DeliverSm} → DeliverSmTrip.IsFresh c0 c → Fresh (Pdu.deliver_sm c0) (Pdu.deliver_sm c)
  deliver_sm_resp :
      {c0 c : DeliverSmResp}
      → DeliverSmRespTrip.IsFresh c0 c
      → Fresh (Pdu.deliver_sm_resp c0) (Pdu.deliver_sm_resp c)
  enquire_link :
      {c0 c : EnquireLink}
      → EnquireLinkTrip.IsFresh c0 c
      → Fresh (Pdu.enquire_link c0) (Pdu.enquire_link c)
  enquire_link_resp :
      {c0 c : EnquireLinkResp}
      → EnquireLinkRespTrip.IsFresh c0 c
      → Fresh (Pdu.enquire_link_resp c0) (Pdu.enquire_link_resp c)
  generic_nack :
      {c0 c : GenericNack}
      → GenericNackTrip.IsFresh c0 c
      → Fresh (Pdu.generic_nack c0) (Pdu.generic_nack c)
  outbind : {c0 c : Outbind} → OutbindTrip.IsFresh c0 c → Fresh (Pdu.outbind c0) (Pdu.outbind c)
  query_sm : {c0 c : QuerySm} → QuerySmTrip.IsFresh c0 c → Fresh (Pdu.query_sm c0) (Pdu.query_sm c)
  query_sm_resp :
      {c0 c : QuerySmResp}
      → QuerySmRespTrip.IsFresh c0 c
      → Fresh (Pdu.query_sm_resp c0) (Pdu.query_sm_resp c)
  replace_sm :
      {c0 c : ReplaceSm} → ReplaceSmTrip.IsFresh c0 c → Fresh (Pdu.replace_sm c0) (Pdu.replace_sm c)
  replace_sm_resp :
      {c0 c : ReplaceSmResp}
      → ReplaceSmRespTrip.IsFresh c0 c
      → Fresh (Pdu.replace_sm_resp c0) (Pdu.replace_sm_resp c)
  submit_multi :
      {c0 c : SubmitMulti}
      → SubmitMultiTrip.IsFresh c0 c
      → Fresh (Pdu.submit_multi c0) (Pdu.submit_multi c)
  submit_multi_resp :
      {c0 c : SubmitMultiResp}
      → SubmitMultiRespTrip.IsFresh c0 c
      → Fresh (Pdu.submit_multi_resp c0) (Pdu.submit_multi_resp c)
  submit_sm :
      {c0 c : SubmitSm} → SubmitSmTrip.IsFresh c0 c → Fresh (Pdu.submit_sm c0) (Pdu.submit_sm c)
  submit_sm_resp :
      {c0 c : SubmitSmResp}
      → SubmitSmRespTrip.IsFresh c0 c
      → Fresh (Pdu.submit_sm_resp c0) (Pdu.submit_sm_resp c)
  unbind : {c0 c : Unbind} → UnbindTrip.IsFresh c0 c → Fresh (Pdu.unbind c0) (Pdu.unbind c)
  unbind_resp :
      {c0 c : UnbindResp}
      → UnbindRespTrip.IsFresh c0 c
      → Fresh (Pdu.unbind_resp c0) (Pdu.unbind_resp c)

-- What a receiver makes of a PDU: all its fields, with the command length of the bytes; of a short
-- message the text is left out, and of a destination the part that its flag does not mean.
abbrev pub arrived : Pdu → Pdu
arrived (Pdu.alert_notification c) =
    Pdu.alert_notification (record (c) { base = (AlertNotification.marshal c).0.base })
arrived (Pdu.bind_request c) =
    Pdu.bind_request (record (c) { base = (BindRequest.marshal c).0.base })
arrived (Pdu.bind_resp c) = Pdu.bind_resp (record (c) { base = (BindResp.marshal c).0.base })
arrived (Pdu.cancel_sm c) = Pdu.cancel_sm (record (c) { base = (CancelSm.marshal c).0.base })
arrived (Pdu.cancel_sm_resp c) =
    Pdu.cancel_sm_resp (record (c) { base = (CancelSmResp.marshal c).0.base })
arrived (Pdu.data_sm c) = Pdu.data_sm (record (c) { base = (DataSm.marshal c).0.base })
arrived (Pdu.data_sm_resp c) =
    Pdu.data_sm_resp (record (c) { base = (DataSmResp.marshal c).0.base })
arrived (Pdu.deliver_sm c) =
    Pdu.deliver_sm (record (DeliverSmTrip.arrived c) { base = (DeliverSm.marshal c).0.base })
arrived (Pdu.deliver_sm_resp c) =
    Pdu.deliver_sm_resp (record (c) { base = (DeliverSmResp.marshal c).0.base })
arrived (Pdu.enquire_link c) =
    Pdu.enquire_link (record (c) { base = (EnquireLink.marshal c).0.base })
arrived (Pdu.enquire_link_resp c) =
    Pdu.enquire_link_resp (record (c) { base = (EnquireLinkResp.marshal c).0.base })
arrived (Pdu.generic_nack c) =
    Pdu.generic_nack (record (c) { base = (GenericNack.marshal c).0.base })
arrived (Pdu.outbind c) = Pdu.outbind (record (c) { base = (Outbind.marshal c).0.base })
arrived (Pdu.query_sm c) = Pdu.query_sm (record (c) { base = (QuerySm.marshal c).0.base })
arrived (Pdu.query_sm_resp c) =
    Pdu.query_sm_resp (record (c) { base = (QuerySmResp.marshal c).0.base })
arrived (Pdu.replace_sm c) =
    Pdu.replace_sm (record (ReplaceSmTrip.arrived c) { base = (ReplaceSm.marshal c).0.base })
arrived (Pdu.replace_sm_resp c) =
    Pdu.replace_sm_resp (record (c) { base = (ReplaceSmResp.marshal c).0.base })
arrived (Pdu.submit_multi c) =
    Pdu.submit_multi (record (SubmitMultiTrip.arrived c) { base = (SubmitMulti.marshal c).0.base })
arrived (Pdu.submit_multi_resp c) =
    Pdu.submit_multi_resp (record (c) { base = (SubmitMultiResp.marshal c).0.base })
arrived (Pdu.submit_sm c) =
    Pdu.submit_sm (record (SubmitSmTrip.arrived c) { base = (SubmitSm.marshal c).0.base })
arrived (Pdu.submit_sm_resp c) =
    Pdu.submit_sm_resp (record (c) { base = (SubmitSmResp.marshal c).0.base })
arrived (Pdu.unbind c) = Pdu.unbind (record (c) { base = (Unbind.marshal c).0.base })
arrived (Pdu.unbind_resp c) = Pdu.unbind_resp (record (c) { base = (UnbindResp.marshal c).0.base })

-- For each of the 23 PDU types: a receiver of the type that has read nothing yet unmarshals the
-- bytes that Marshal wrote of a PDU whose fields fit (the system_id of a bind_resp only where it
-- is read), whatever follows them, to the PDU that arrives: all the fields sent and the command
-- length of the bytes, but of a short message not the text beside its data and the encoding as its
-- number names it, and of a destination what its flag says.
pub pdu-Decodes :
    {p0 p : Pdu} → Fresh p0 p → IsSendable p → Decodes (unmarshal p0) (marshal p).1 (arrived p)
unfolding unmarshal marshal
pdu-Decodes (Fresh.alert_notification {c0} {c} f) h =
    Decodes-last _ (AlertNotificationTrip.alert_notification-Decodes c c0 h f)
pdu-Decodes (Fresh.bind_request {c0} {c} f) h =
    Decodes-last _ (BindRequestTrip.bind_request-Decodes c c0 h f)
pdu-Decodes (Fresh.bind_resp {c0} {c} f) h =
    Decodes-last _ (BindRespTrip.bind_resp-Decodes c c0 h f)
pdu-Decodes (Fresh.cancel_sm {c0} {c} f) h =
    Decodes-last _ (CancelSmTrip.cancel_sm-Decodes c c0 h f)
pdu-Decodes (Fresh.cancel_sm_resp {c0} {c} f) h =
    Decodes-last _ (CancelSmRespTrip.cancel_sm_resp-Decodes c c0 h f)
pdu-Decodes (Fresh.data_sm {c0} {c} f) h = Decodes-last _ (DataSmTrip.data_sm-Decodes c c0 h f)
pdu-Decodes (Fresh.data_sm_resp {c0} {c} f) h =
    Decodes-last _ (DataSmRespTrip.data_sm_resp-Decodes c c0 h f)
pdu-Decodes (Fresh.deliver_sm {c0} {c} f) h =
    Decodes-last _ (DeliverSmTrip.deliver_sm-Decodes c c0 h f)
pdu-Decodes (Fresh.deliver_sm_resp {c0} {c} f) h =
    Decodes-last _ (DeliverSmRespTrip.deliver_sm_resp-Decodes c c0 h f)
pdu-Decodes (Fresh.enquire_link {c0} {c} f) h =
    Decodes-last _ (EnquireLinkTrip.enquire_link-Decodes c c0 h f)
pdu-Decodes (Fresh.enquire_link_resp {c0} {c} f) h =
    Decodes-last _ (EnquireLinkRespTrip.enquire_link_resp-Decodes c c0 h f)
pdu-Decodes (Fresh.generic_nack {c0} {c} f) h =
    Decodes-last _ (GenericNackTrip.generic_nack-Decodes c c0 h f)
pdu-Decodes (Fresh.outbind {c0} {c} f) h = Decodes-last _ (OutbindTrip.outbind-Decodes c c0 h f)
pdu-Decodes (Fresh.query_sm {c0} {c} f) h = Decodes-last _ (QuerySmTrip.query_sm-Decodes c c0 h f)
pdu-Decodes (Fresh.query_sm_resp {c0} {c} f) h =
    Decodes-last _ (QuerySmRespTrip.query_sm_resp-Decodes c c0 h f)
pdu-Decodes (Fresh.replace_sm {c0} {c} f) h =
    Decodes-last _ (ReplaceSmTrip.replace_sm-Decodes c c0 h f)
pdu-Decodes (Fresh.replace_sm_resp {c0} {c} f) h =
    Decodes-last _ (ReplaceSmRespTrip.replace_sm_resp-Decodes c c0 h f)
pdu-Decodes (Fresh.submit_multi {c0} {c} f) h =
    Decodes-last _ (SubmitMultiTrip.submit_multi-Decodes c c0 h f)
pdu-Decodes (Fresh.submit_multi_resp {c0} {c} f) h =
    Decodes-last _ (SubmitMultiRespTrip.submit_multi_resp-Decodes c c0 h f)
pdu-Decodes (Fresh.submit_sm {c0} {c} f) h =
    Decodes-last _ (SubmitSmTrip.submit_sm-Decodes c c0 h f)
pdu-Decodes (Fresh.submit_sm_resp {c0} {c} f) h =
    Decodes-last _ (SubmitSmRespTrip.submit_sm_resp-Decodes c c0 h f)
pdu-Decodes (Fresh.unbind {c0} {c} f) h = Decodes-last _ (UnbindTrip.unbind-Decodes c c0 h f)
pdu-Decodes (Fresh.unbind_resp {c0} {c} f) h =
    Decodes-last _ (UnbindRespTrip.unbind_resp-Decodes c c0 h f)
