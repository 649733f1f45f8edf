-- ===== src/Wire/Sequence.antt =====
-- Marshal changes no sequence number.
use gosmpp.Prelude.{◌≡◌, refl}
use gosmpp.Base
use gosmpp.Packet.{Pdu, get_sequence_number}
use gosmpp.Wire.{marshal}
use gosmpp.Pdu.AlertNotification
use gosmpp.Pdu.BindRequest
use gosmpp.Pdu.BindResp
use gosmpp.Pdu.CancelSm
use gosmpp.Pdu.CancelSmResp
use gosmpp.Pdu.DataSm
use gosmpp.Pdu.DataSmResp
use gosmpp.Pdu.DeliverSm
use gosmpp.Pdu.DeliverSmResp
use gosmpp.Pdu.EnquireLink
use gosmpp.Pdu.EnquireLinkResp
use gosmpp.Pdu.GenericNack
use gosmpp.Pdu.Outbind
use gosmpp.Pdu.QuerySm
use gosmpp.Pdu.QuerySmResp
use gosmpp.Pdu.ReplaceSm
use gosmpp.Pdu.ReplaceSmResp
use gosmpp.Pdu.SubmitMulti
use gosmpp.Pdu.SubmitMultiResp
use gosmpp.Pdu.SubmitSm
use gosmpp.Pdu.SubmitSmResp
use gosmpp.Pdu.Unbind
use gosmpp.Pdu.UnbindResp

pub get_sequence_number-marshal :
    (p : Pdu) → get_sequence_number (marshal p).0 ≡ get_sequence_number p
unfolding get_sequence_number marshal Base.marshal AlertNotification.marshal BindRequest.marshal
    BindResp.marshal CancelSm.marshal CancelSmResp.marshal DataSm.marshal DataSmResp.marshal
    DeliverSm.marshal DeliverSmResp.marshal EnquireLink.marshal EnquireLinkResp.marshal
    GenericNack.marshal Outbind.marshal QuerySm.marshal QuerySmResp.marshal ReplaceSm.marshal
    ReplaceSmResp.marshal SubmitMulti.marshal SubmitMultiResp.marshal SubmitSm.marshal
    SubmitSmResp.marshal Unbind.marshal UnbindResp.marshal
get_sequence_number-marshal (Pdu.alert_notification c) = refl
get_sequence_number-marshal (Pdu.bind_request c) = refl
get_sequence_number-marshal (Pdu.bind_resp c) = refl
get_sequence_number-marshal (Pdu.cancel_sm c) = refl
get_sequence_number-marshal (Pdu.cancel_sm_resp c) = refl
get_sequence_number-marshal (Pdu.data_sm c) = refl
get_sequence_number-marshal (Pdu.data_sm_resp c) = refl
get_sequence_number-marshal (Pdu.deliver_sm c) = refl
get_sequence_number-marshal (Pdu.deliver_sm_resp c) = refl
get_sequence_number-marshal (Pdu.enquire_link c) = refl
get_sequence_number-marshal (Pdu.enquire_link_resp c) = refl
get_sequence_number-marshal (Pdu.generic_nack c) = refl
get_sequence_number-marshal (Pdu.outbind c) = refl
get_sequence_number-marshal (Pdu.query_sm c) = refl
get_sequence_number-marshal (Pdu.query_sm_resp c) = refl
get_sequence_number-marshal (Pdu.replace_sm c) = refl
get_sequence_number-marshal (Pdu.replace_sm_resp c) = refl
get_sequence_number-marshal (Pdu.submit_multi c) = refl
get_sequence_number-marshal (Pdu.submit_multi_resp c) = refl
get_sequence_number-marshal (Pdu.submit_sm c) = refl
get_sequence_number-marshal (Pdu.submit_sm_resp c) = refl
get_sequence_number-marshal (Pdu.unbind c) = refl
get_sequence_number-marshal (Pdu.unbind_resp c) = refl
