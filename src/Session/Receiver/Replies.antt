-- ===== src/Session/Receiver/Replies.antt =====
-- What handleOrClose of receivable.go answers, and when it closes the bind.
use gosmpp.Prelude.{
  ◌≡◌, refl, ap, ◌∙◌, Bool, true, false, List, [], ◌∷◌, Option, some, if◌then◌else◌,
}
use gosmpp.Globals.{Globals}
use gosmpp.Packet.{Pdu}
use gosmpp.Factory.Typed.{IsTyped}
use gosmpp.Response.{can_response, get_response}
use gosmpp.Response.Answers.{Answers}
use gosmpp.Response.Replies.{get_response-Answers}
use gosmpp.Session.Settings.{Settings, Event, respond, on_pdu}
use gosmpp.Session.Receiver.{handle_or_close, answer}

-- The PDUs that events hand to the transmitter.
abbrev pub responses : List Event → List (Option Pdu)
responses [] = []
responses (respond p ∷ es) = p ∷ responses es
responses (e ∷ es) = responses es

abbrev pub is_unbind : Pdu → Bool
is_unbind (Pdu.unbind c) = true
is_unbind p = false

responses_notice :
    (b : Bool) (p : Pdu) (x : Bool) → responses (if b then on_pdu p x ∷ [] else []) ≡ []
responses_notice true p x = refl
responses_notice false p x = refl

responses-answered :
    (settings : Settings) (g : Globals) (p : Pdu)
    → can_response p ≡ true
    → responses (handle_or_close settings g p).events ≡ (get_response g p).0 ∷ []
unfolding handle_or_close answer can_response
responses-answered settings g (Pdu.alert_notification c) can = cc
responses-answered settings g (Pdu.bind_request c) can =
    ap (λ l. (get_response g (Pdu.bind_request c)).0 ∷ l)
      (responses_notice settings.on_pdu (Pdu.bind_request c) true)
responses-answered settings g (Pdu.bind_resp c) can = cc
responses-answered settings g (Pdu.cancel_sm c) can =
    ap (λ l. (get_response g (Pdu.cancel_sm c)).0 ∷ l)
      (responses_notice settings.on_pdu (Pdu.cancel_sm c) true)
responses-answered settings g (Pdu.cancel_sm_resp c) can = cc
responses-answered settings g (Pdu.data_sm c) can =
    ap (λ l. (get_response g (Pdu.data_sm c)).0 ∷ l)
      (responses_notice settings.on_pdu (Pdu.data_sm c) true)
responses-answered settings g (Pdu.data_sm_resp c) can = cc
responses-answered settings g (Pdu.deliver_sm c) can =
    ap (λ l. (get_response g (Pdu.deliver_sm c)).0 ∷ l)
      (responses_notice settings.on_pdu (Pdu.deliver_sm c) true)
responses-answered settings g (Pdu.deliver_sm_resp c) can = cc
responses-answered settings g (Pdu.enquire_link c) can = refl
responses-answered settings g (Pdu.enquire_link_resp c) can = cc
responses-answered settings g (Pdu.generic_nack c) can = cc
responses-answered settings g (Pdu.outbind c) can = cc
responses-answered settings g (Pdu.query_sm c) can =
    ap (λ l. (get_response g (Pdu.query_sm c)).0 ∷ l)
      (responses_notice settings.on_pdu (Pdu.query_sm c) true)
responses-answered settings g (Pdu.query_sm_resp c) can = cc
responses-answered settings g (Pdu.replace_sm c) can =
    ap (λ l. (get_response g (Pdu.replace_sm c)).0 ∷ l)
      (responses_notice settings.on_pdu (Pdu.replace_sm c) true)
responses-answered settings g (Pdu.replace_sm_resp c) can = cc
responses-answered settings g (Pdu.submit_multi c) can =
    ap (λ l. (get_response g (Pdu.submit_multi c)).0 ∷ l)
      (responses_notice settings.on_pdu (Pdu.submit_multi c) true)
responses-answered settings g (Pdu.submit_multi_resp c) can = cc
responses-answered settings g (Pdu.submit_sm c) can =
    ap (λ l. (get_response g (Pdu.submit_sm c)).0 ∷ l)
      (responses_notice settings.on_pdu (Pdu.submit_sm c) true)
responses-answered settings g (Pdu.submit_sm_resp c) can = cc
responses-answered settings g (Pdu.unbind c) can = refl
responses-answered settings g (Pdu.unbind_resp c) can = cc

pub handle_or_close-none :
    (settings : Settings) (g : Globals) (p : Pdu)
    → can_response p ≡ false
    → responses (handle_or_close settings g p).events ≡ []
unfolding handle_or_close answer can_response
handle_or_close-none settings g (Pdu.alert_notification c) cannot =
    responses_notice settings.on_pdu (Pdu.alert_notification c) false
handle_or_close-none settings g (Pdu.bind_request c) cannot = cc
handle_or_close-none settings g (Pdu.bind_resp c) cannot =
    responses_notice settings.on_pdu (Pdu.bind_resp c) false
handle_or_close-none settings g (Pdu.cancel_sm c) cannot = cc
handle_or_close-none settings g (Pdu.cancel_sm_resp c) cannot =
    responses_notice settings.on_pdu (Pdu.cancel_sm_resp c) false
handle_or_close-none settings g (Pdu.data_sm c) cannot = cc
handle_or_close-none settings g (Pdu.data_sm_resp c) cannot =
    responses_notice settings.on_pdu (Pdu.data_sm_resp c) false
handle_or_close-none settings g (Pdu.deliver_sm c) cannot = cc
handle_or_close-none settings g (Pdu.deliver_sm_resp c) cannot =
    responses_notice settings.on_pdu (Pdu.deliver_sm_resp c) false
handle_or_close-none settings g (Pdu.enquire_link c) cannot = cc
handle_or_close-none settings g (Pdu.enquire_link_resp c) cannot =
    responses_notice settings.on_pdu (Pdu.enquire_link_resp c) false
handle_or_close-none settings g (Pdu.generic_nack c) cannot =
    responses_notice settings.on_pdu (Pdu.generic_nack c) false
handle_or_close-none settings g (Pdu.outbind c) cannot =
    responses_notice settings.on_pdu (Pdu.outbind c) false
handle_or_close-none settings g (Pdu.query_sm c) cannot = cc
handle_or_close-none settings g (Pdu.query_sm_resp c) cannot =
    responses_notice settings.on_pdu (Pdu.query_sm_resp c) false
handle_or_close-none settings g (Pdu.replace_sm c) cannot = cc
handle_or_close-none settings g (Pdu.replace_sm_resp c) cannot =
    responses_notice settings.on_pdu (Pdu.replace_sm_resp c) false
handle_or_close-none settings g (Pdu.submit_multi c) cannot = cc
handle_or_close-none settings g (Pdu.submit_multi_resp c) cannot =
    responses_notice settings.on_pdu (Pdu.submit_multi_resp c) false
handle_or_close-none settings g (Pdu.submit_sm c) cannot = cc
handle_or_close-none settings g (Pdu.submit_sm_resp c) cannot =
    responses_notice settings.on_pdu (Pdu.submit_sm_resp c) false
handle_or_close-none settings g (Pdu.unbind c) cannot = cc
handle_or_close-none settings g (Pdu.unbind_resp c) cannot =
    responses_notice settings.on_pdu (Pdu.unbind_resp c) false

pub closing-is_unbind :
    (settings : Settings) (g : Globals) (p : Pdu)
    → (handle_or_close settings g p).closing ≡ is_unbind p
unfolding handle_or_close answer can_response
closing-is_unbind settings g (Pdu.alert_notification c) = refl
closing-is_unbind settings g (Pdu.bind_request c) = refl
closing-is_unbind settings g (Pdu.bind_resp c) = refl
closing-is_unbind settings g (Pdu.cancel_sm c) = refl
closing-is_unbind settings g (Pdu.cancel_sm_resp c) = refl
closing-is_unbind settings g (Pdu.data_sm c) = refl
closing-is_unbind settings g (Pdu.data_sm_resp c) = refl
closing-is_unbind settings g (Pdu.deliver_sm c) = refl
closing-is_unbind settings g (Pdu.deliver_sm_resp c) = refl
closing-is_unbind settings g (Pdu.enquire_link c) = refl
closing-is_unbind settings g (Pdu.enquire_link_resp c) = refl
closing-is_unbind settings g (Pdu.generic_nack c) = refl
closing-is_unbind settings g (Pdu.outbind c) = refl
closing-is_unbind settings g (Pdu.query_sm c) = refl
closing-is_unbind settings g (Pdu.query_sm_resp c) = refl
closing-is_unbind settings g (Pdu.replace_sm c) = refl
closing-is_unbind settings g (Pdu.replace_sm_resp c) = refl
closing-is_unbind settings g (Pdu.submit_multi c) = refl
closing-is_unbind settings g (Pdu.submit_multi_resp c) = refl
closing-is_unbind settings g (Pdu.submit_sm c) = refl
closing-is_unbind settings g (Pdu.submit_sm_resp c) = refl
closing-is_unbind settings g (Pdu.unbind c) = refl
closing-is_unbind settings g (Pdu.unbind_resp c) = refl

-- handleOrClose responds to a PDU of the command identifier of its type that can be responded to
-- with exactly one PDU, which answers it: the same sequence number, the command identifier plus
-- 0x80000000, status 0.
pub handle_or_close-Answers :
    (settings : Settings) (g : Globals) (p : Pdu)
    → IsTyped p
    → can_response p ≡ true
    → (r : Pdu) × (responses (handle_or_close settings g p).events ≡ some r ∷ []) × Answers r p
handle_or_close-Answers settings g p typed can =
    let (r, given, answers) = get_response-Answers g p typed can in
    (r, responses-answered settings g p can ∙ ap (λ o. o ∷ []) given, answers)
