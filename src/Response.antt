-- ===== src/Response.antt =====
-- CanResponse and GetResponse of the PDU interface (pdu/PDU.go), dispatched to the types.
pub mod Answers
pub mod Replies
use gosmpp.Prelude.{Bool, true, false, Option, none, some}
use gosmpp.Globals.{Globals}
use gosmpp.Pdu.BindResp
use gosmpp.Pdu.CancelSmResp
use gosmpp.Pdu.DataSmResp
use gosmpp.Pdu.DeliverSmResp
use gosmpp.Pdu.EnquireLinkResp
use gosmpp.Pdu.QuerySmResp
use gosmpp.Pdu.ReplaceSmResp
use gosmpp.Pdu.SubmitMultiResp
use gosmpp.Pdu.SubmitSmResp
use gosmpp.Pdu.UnbindResp
use gosmpp.Packet.{
  Pdu, alert_notification, bind_request, bind_resp, cancel_sm, cancel_sm_resp, data_sm,
  data_sm_resp, deliver_sm, deliver_sm_resp, enquire_link, enquire_link_resp, generic_nack, outbind,
  query_sm, query_sm_resp, replace_sm, replace_sm_resp, submit_multi, submit_multi_resp, submit_sm,
  submit_sm_resp, unbind, unbind_resp,
}

unfoldable pub can_response : Pdu → Bool
can_response (alert_notification c) = false
can_response (bind_request c) = true
can_response (bind_resp c) = false
can_response (cancel_sm c) = true
can_response (cancel_sm_resp c) = false
can_response (data_sm c) = true
can_response (data_sm_resp c) = false
can_response (deliver_sm c) = true
can_response (deliver_sm_resp c) = false
can_response (enquire_link c) = true
can_response (enquire_link_resp c) = false
can_response (generic_nack c) = false
can_response (outbind c) = false
can_response (query_sm c) = true
can_response (query_sm_resp c) = false
can_response (replace_sm c) = true
can_response (replace_sm_resp c) = false
can_response (submit_multi c) = true
can_response (submit_multi_resp c) = false
can_response (submit_sm c) = true
can_response (submit_sm_resp c) = false
can_response (unbind c) = true
can_response (unbind_resp c) = false

-- `none` is the nil PDU. A response takes a sequence number of its own before it is given the
-- one of the request.
unfoldable pub get_response : Globals → Pdu → Option Pdu × Globals
get_response g (alert_notification c) = (none, g)
get_response g (bind_request c) = let (r, g') = BindResp.new g c in (some (bind_resp r), g')
get_response g (bind_resp c) = (none, g)
get_response g (cancel_sm c) =
    let (r, g') = CancelSmResp.new_from_req g c in (some (cancel_sm_resp r), g')
get_response g (cancel_sm_resp c) = (none, g)
get_response g (data_sm c) =
    let (r, g') = DataSmResp.new_from_req g c in (some (data_sm_resp r), g')
get_response g (data_sm_resp c) = (none, g)
get_response g (deliver_sm c) =
    let (r, g') = DeliverSmResp.new_from_req g c in (some (deliver_sm_resp r), g')
get_response g (deliver_sm_resp c) = (none, g)
get_response g (enquire_link c) =
    let (r, g') = EnquireLinkResp.new_from_req g c in (some (enquire_link_resp r), g')
get_response g (enquire_link_resp c) = (none, g)
get_response g (generic_nack c) = (none, g)
get_response g (outbind c) = (none, g)
get_response g (query_sm c) =
    let (r, g') = QuerySmResp.new_from_req g c in (some (query_sm_resp r), g')
get_response g (query_sm_resp c) = (none, g)
get_response g (replace_sm c) =
    let (r, g') = ReplaceSmResp.new_from_req g c in (some (replace_sm_resp r), g')
get_response g (replace_sm_resp c) = (none, g)
get_response g (submit_multi c) =
    let (r, g') = SubmitMultiResp.new_from_req g c in (some (submit_multi_resp r), g')
get_response g (submit_multi_resp c) = (none, g)
get_response g (submit_sm c) =
    let (r, g') = SubmitSmResp.new_from_req g c in (some (submit_sm_resp r), g')
get_response g (submit_sm_resp c) = (none, g)
get_response g (unbind c) = let (r, g') = UnbindResp.new_from_req g c in (some (unbind_resp r), g')
get_response g (unbind_resp c) = (none, g)
