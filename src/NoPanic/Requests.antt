-- ===== src/NoPanic/Requests.antt =====
-- The bodies of the PDU types that ask or notify.
use gosmpp.Prelude.{false}
use gosmpp.Buffer.Safety.{Safe, Safe-pure, Safe-bind, byte-Safe, c_string-Safe}
use gosmpp.NoPanic.Fields.{address-Safe, address_range-Safe, destinations-Safe}
use gosmpp.NoPanic.Message.{message-Safe}
use gosmpp.ShortMessage.{udh_indicator}
use gosmpp.Pdu.AlertNotification
use gosmpp.Pdu.BindRequest
use gosmpp.Pdu.CancelSm
use gosmpp.Pdu.DataSm
use gosmpp.Pdu.DeliverSm
use gosmpp.Pdu.EnquireLink
use gosmpp.Pdu.Outbind
use gosmpp.Pdu.QuerySm
use gosmpp.Pdu.ReplaceSm
use gosmpp.Pdu.SubmitMulti
use gosmpp.Pdu.SubmitSm
use gosmpp.Pdu.Unbind

pub alert_notification-Safe :
    (c : AlertNotification.AlertNotification) → Safe (AlertNotification.read_body c)
unfolding AlertNotification.read_body
alert_notification-Safe c = Safe-bind _ address-Safe λ _. Safe-bind _ address-Safe λ _. Safe-pure _

pub bind_request-Safe : (c : BindRequest.BindRequest) → Safe (BindRequest.read_body c)
unfolding BindRequest.read_body
bind_request-Safe c = Safe-bind _ c_string-Safe λ _. Safe-bind _ c_string-Safe λ _.
    Safe-bind _ c_string-Safe
      λ _. Safe-bind _ byte-Safe λ _. Safe-bind _ address_range-Safe λ _. Safe-pure _

pub cancel_sm-Safe : (c : CancelSm.CancelSm) → Safe (CancelSm.read_body c)
unfolding CancelSm.read_body
cancel_sm-Safe c = Safe-bind _ c_string-Safe λ _.
    Safe-bind _ c_string-Safe
      λ _. Safe-bind _ address-Safe λ _. Safe-bind _ address-Safe λ _. Safe-pure _

pub data_sm-Safe : (c : DataSm.DataSm) → Safe (DataSm.read_body c)
unfolding DataSm.read_body
data_sm-Safe c = Safe-bind _ c_string-Safe λ _. Safe-bind _ address-Safe λ _.
    Safe-bind _ address-Safe λ _.
      Safe-bind _ byte-Safe
        λ esm_class. Safe-bind _ byte-Safe λ _. Safe-bind _ byte-Safe λ _. Safe-pure _

pub deliver_sm-Safe : (c : DeliverSm.DeliverSm) → Safe (DeliverSm.read_body c)
unfolding DeliverSm.read_body
deliver_sm-Safe c = Safe-bind _ c_string-Safe λ _. Safe-bind _ address-Safe λ _.
    Safe-bind _ address-Safe λ _. Safe-bind _ byte-Safe λ esm_class. Safe-bind _ byte-Safe λ _.
      Safe-bind _ byte-Safe λ _. Safe-bind _ c_string-Safe λ _. Safe-bind _ c_string-Safe λ _.
        Safe-bind _ byte-Safe λ _.
          Safe-bind _ byte-Safe
            λ _. Safe-bind _ (message-Safe c.message (udh_indicator esm_class)) λ _. Safe-pure _

pub enquire_link-Safe : (c : EnquireLink.EnquireLink) → Safe (EnquireLink.read_body c)
unfolding EnquireLink.read_body
enquire_link-Safe c = Safe-pure _

pub outbind-Safe : (c : Outbind.Outbind) → Safe (Outbind.read_body c)
unfolding Outbind.read_body
outbind-Safe c = Safe-bind _ c_string-Safe λ _. Safe-bind _ c_string-Safe λ _. Safe-pure _

pub query_sm-Safe : (c : QuerySm.QuerySm) → Safe (QuerySm.read_body c)
unfolding QuerySm.read_body
query_sm-Safe c = Safe-bind _ c_string-Safe λ _. Safe-bind _ address-Safe λ _. Safe-pure _

pub replace_sm-Safe : (c : ReplaceSm.ReplaceSm) → Safe (ReplaceSm.read_body c)
unfolding ReplaceSm.read_body
replace_sm-Safe c = Safe-bind _ c_string-Safe λ _. Safe-bind _ address-Safe λ _.
    Safe-bind _ c_string-Safe λ _.
      Safe-bind _ c_string-Safe
        λ _. Safe-bind _ byte-Safe λ _. Safe-bind _ (message-Safe c.message false) λ _. Safe-pure _

pub submit_multi-Safe : (c : SubmitMulti.SubmitMulti) → Safe (SubmitMulti.read_body c)
unfolding SubmitMulti.read_body
submit_multi-Safe c = Safe-bind _ c_string-Safe λ _. Safe-bind _ address-Safe λ _.
    Safe-bind _ destinations-Safe λ _. Safe-bind _ byte-Safe λ esm_class. Safe-bind _ byte-Safe λ _.
      Safe-bind _ byte-Safe λ _. Safe-bind _ c_string-Safe λ _. Safe-bind _ c_string-Safe λ _.
        Safe-bind _ byte-Safe λ _.
          Safe-bind _ byte-Safe
            λ _. Safe-bind _ (message-Safe c.message (udh_indicator esm_class)) λ _. Safe-pure _

pub submit_sm-Safe : (c : SubmitSm.SubmitSm) → Safe (SubmitSm.read_body c)
unfolding SubmitSm.read_body
submit_sm-Safe c = Safe-bind _ c_string-Safe λ _. Safe-bind _ address-Safe λ _.
    Safe-bind _ address-Safe λ _. Safe-bind _ byte-Safe λ esm_class. Safe-bind _ byte-Safe λ _.
      Safe-bind _ byte-Safe λ _. Safe-bind _ c_string-Safe λ _. Safe-bind _ c_string-Safe λ _.
        Safe-bind _ byte-Safe λ _.
          Safe-bind _ byte-Safe
            λ _. Safe-bind _ (message-Safe c.message (udh_indicator esm_class)) λ _. Safe-pure _

pub unbind-Safe : (c : Unbind.Unbind) → Safe (Unbind.read_body c)
unfolding Unbind.read_body
unbind-Safe c = Safe-pure _
