-- ===== src/Response/Replies.antt =====
-- The responses of the PDU types of pdu/: which PDU has one, and what it carries over.
use gosmpp.Prelude.{◌≡◌, refl, true, false, some, none}
use gosmpp.Globals.{Globals}
use gosmpp.Packet.{Pdu}
use gosmpp.Factory.Typed.{IsTyped}
use gosmpp.Response.{can_response, get_response}
use gosmpp.Response.Answers.{
  Answers, bind_request-AnsweredBy, cancel_sm-AnsweredBy, data_sm-AnsweredBy, deliver_sm-AnsweredBy,
  enquire_link-AnsweredBy, query_sm-AnsweredBy, replace_sm-AnsweredBy, submit_multi-AnsweredBy,
  submit_sm-AnsweredBy, unbind-AnsweredBy,
}

-- Every PDU of the command identifier of its type that can be responded to has a response: with
-- the same sequence number, the command identifier plus 0x80000000, status 0, the shape of its own
-- type, and no response of its own.
pub get_response-Answers :
    (g : Globals) (p : Pdu)
    → IsTyped p
    → can_response p ≡ true
    → (r : Pdu) × ((get_response g p).0 ≡ some r) × Answers r p
unfolding can_response
get_response-Answers g (Pdu.alert_notification c) h can = cc
get_response-Answers g (Pdu.bind_request c) h can = bind_request-AnsweredBy g c h
get_response-Answers g (Pdu.bind_resp c) h can = cc
get_response-Answers g (Pdu.cancel_sm c) h can = cancel_sm-AnsweredBy g c h
get_response-Answers g (Pdu.cancel_sm_resp c) h can = cc
get_response-Answers g (Pdu.data_sm c) h can = data_sm-AnsweredBy g c h
get_response-Answers g (Pdu.data_sm_resp c) h can = cc
get_response-Answers g (Pdu.deliver_sm c) h can = deliver_sm-AnsweredBy g c h
get_response-Answers g (Pdu.deliver_sm_resp c) h can = cc
get_response-Answers g (Pdu.enquire_link c) h can = enquire_link-AnsweredBy g c h
get_response-Answers g (Pdu.enquire_link_resp c) h can = cc
get_response-Answers g (Pdu.generic_nack c) h can = cc
get_response-Answers g (Pdu.outbind c) h can = cc
get_response-Answers g (Pdu.query_sm c) h can = query_sm-AnsweredBy g c h
get_response-Answers g (Pdu.query_sm_resp c) h can = cc
get_response-Answers g (Pdu.replace_sm c) h can = replace_sm-AnsweredBy g c h
get_response-Answers g (Pdu.replace_sm_resp c) h can = cc
get_response-Answers g (Pdu.submit_multi c) h can = submit_multi-AnsweredBy g c h
get_response-Answers g (Pdu.submit_multi_resp c) h can = cc
get_response-Answers g (Pdu.submit_sm c) h can = submit_sm-AnsweredBy g c h
get_response-Answers g (Pdu.submit_sm_resp c) h can = cc
get_response-Answers g (Pdu.unbind c) h can = unbind-AnsweredBy g c h
get_response-Answers g (Pdu.unbind_resp c) h can = cc

-- A PDU that cannot be responded to has no response, and asking for one leaves the package
-- variables as they were.
pub get_response-none :
    (g : Globals) (p : Pdu) → can_response p ≡ false → get_response g p ≡ (none, g)
unfolding can_response get_response
get_response-none g (Pdu.alert_notification c) cannot = refl
get_response-none g (Pdu.bind_request c) cannot = cc
get_response-none g (Pdu.bind_resp c) cannot = refl
get_response-none g (Pdu.cancel_sm c) cannot = cc
get_response-none g (Pdu.cancel_sm_resp c) cannot = refl
get_response-none g (Pdu.data_sm c) cannot = cc
get_response-none g (Pdu.data_sm_resp c) cannot = refl
get_response-none g (Pdu.deliver_sm c) cannot = cc
get_response-none g (Pdu.deliver_sm_resp c) cannot = refl
get_response-none g (Pdu.enquire_link c) cannot = cc
get_response-none g (Pdu.enquire_link_resp c) cannot = refl
get_response-none g (Pdu.generic_nack c) cannot = refl
get_response-none g (Pdu.outbind c) cannot = refl
get_response-none g (Pdu.query_sm c) cannot = cc
get_response-none g (Pdu.query_sm_resp c) cannot = refl
get_response-none g (Pdu.replace_sm c) cannot = cc
get_response-none g (Pdu.replace_sm_resp c) cannot = refl
get_response-none g (Pdu.submit_multi c) cannot = cc
get_response-none g (Pdu.submit_multi_resp c) cannot = refl
get_response-none g (Pdu.submit_sm c) cannot = cc
get_response-none g (Pdu.submit_sm_resp c) cannot = refl
get_response-none g (Pdu.unbind c) cannot = cc
get_response-none g (Pdu.unbind_resp c) cannot = refl
