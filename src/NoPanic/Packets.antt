-- ===== src/NoPanic/Packets.antt =====
-- Unmarshal of every PDU type with a map, and the PDUs that the factory creates.
use gosmpp.Prelude.{
  ℕ, ◌≡◌, ◌≢◌, refl, Bool, true, false, ◌==◌, if◌then◌else◌, some, inl, inr, ◌⊎◌, Bool-cases, arith,
  [],
}
use gosmpp.Outcome.{Error}
use gosmpp.Globals.{Globals}
use gosmpp.Buffer.Safety.{Safe, Safe-pure, Safe-bind, is_returned}
use gosmpp.Base.{Options, new_base, set_command_id}
use gosmpp.CommandId
use gosmpp.Packet.{Pdu, base_of}
use gosmpp.Wire.{unmarshal}
use gosmpp.Factory.{create_pdu_from_cmd_id}
use gosmpp.NoPanic.Frame.{frame-Safe}
use gosmpp.NoPanic.Requests
use gosmpp.NoPanic.Responses
use gosmpp.Pdu.AlertNotification
use gosmpp.Pdu.BindRequest
use gosmpp.Pdu.BindResp
use gosmpp.Pdu.CancelSm
use gosmpp.Pdu.CancelSmResp
use gosmpp.Pdu.DataSm
use gosmpp.Pdu.DataSmResp
use gosmpp.Pdu.DeliverSm
use gosmpp.Pdu.DeliverSmResp
use gosmpp.Pdu.EnquireLink
use gosmpp.Pdu.EnquireLinkResp
use gosmpp.Pdu.GenericNack
use gosmpp.Pdu.Outbind
use gosmpp.Pdu.QuerySm
use gosmpp.Pdu.QuerySmResp
use gosmpp.Pdu.ReplaceSm
use gosmpp.Pdu.ReplaceSmResp
use gosmpp.Pdu.SubmitMulti
use gosmpp.Pdu.SubmitMultiResp
use gosmpp.Pdu.SubmitSm
use gosmpp.Pdu.SubmitSmResp
use gosmpp.Pdu.Unbind
use gosmpp.Pdu.UnbindResp

pub pdu-Safe :
    (p : Pdu) (m : Options) → (base_of p).optional_parameters ≡ some m → Safe (unmarshal p)
unfolding unmarshal AlertNotification.unmarshal BindRequest.unmarshal BindResp.unmarshal
    CancelSm.unmarshal CancelSmResp.unmarshal DataSm.unmarshal DataSmResp.unmarshal
    DeliverSm.unmarshal DeliverSmResp.unmarshal EnquireLink.unmarshal EnquireLinkResp.unmarshal
    GenericNack.unmarshal Outbind.unmarshal QuerySm.unmarshal QuerySmResp.unmarshal
    ReplaceSm.unmarshal ReplaceSmResp.unmarshal SubmitMulti.unmarshal SubmitMultiResp.unmarshal
    SubmitSm.unmarshal SubmitSmResp.unmarshal Unbind.unmarshal UnbindResp.unmarshal
pdu-Safe (Pdu.alert_notification c) m e =
    Safe-bind _
      (Safe-bind _ (frame-Safe c.base m _ e (λ _. Requests.alert_notification-Safe c))
        λ _. Safe-pure _)
      λ _. Safe-pure _
pdu-Safe (Pdu.bind_request c) m e =
    Safe-bind _
      (Safe-bind _ (frame-Safe c.base m _ e (λ _. Requests.bind_request-Safe c)) λ _. Safe-pure _)
      λ _. Safe-pure _
pdu-Safe (Pdu.bind_resp c) m e =
    Safe-bind _
      (Safe-bind _ (frame-Safe c.base m _ e (Responses.bind_resp-Safe c)) λ _. Safe-pure _)
      λ _. Safe-pure _
pdu-Safe (Pdu.cancel_sm c) m e =
    Safe-bind _
      (Safe-bind _ (frame-Safe c.base m _ e (λ _. Requests.cancel_sm-Safe c)) λ _. Safe-pure _)
      λ _. Safe-pure _
pdu-Safe (Pdu.cancel_sm_resp c) m e =
    Safe-bind _
      (Safe-bind _ (frame-Safe c.base m _ e (λ _. Responses.cancel_sm_resp-Safe c))
        λ _. Safe-pure _)
      λ _. Safe-pure _
pdu-Safe (Pdu.data_sm c) m e =
    Safe-bind _
      (Safe-bind _ (frame-Safe c.base m _ e (λ _. Requests.data_sm-Safe c)) λ _. Safe-pure _)
      λ _. Safe-pure _
pdu-Safe (Pdu.data_sm_resp c) m e =
    Safe-bind _
      (Safe-bind _ (frame-Safe c.base m _ e (λ _. Responses.data_sm_resp-Safe c)) λ _. Safe-pure _)
      λ _. Safe-pure _
pdu-Safe (Pdu.deliver_sm c) m e =
    Safe-bind _
      (Safe-bind _ (frame-Safe c.base m _ e (λ _. Requests.deliver_sm-Safe c)) λ _. Safe-pure _)
      λ _. Safe-pure _
pdu-Safe (Pdu.deliver_sm_resp c) m e =
    Safe-bind _
      (Safe-bind _ (frame-Safe c.base m _ e (λ _. Responses.deliver_sm_resp-Safe c))
        λ _. Safe-pure _)
      λ _. Safe-pure _
pdu-Safe (Pdu.enquire_link c) m e =
    Safe-bind _
      (Safe-bind _ (frame-Safe c.base m _ e (λ _. Requests.enquire_link-Safe c)) λ _. Safe-pure _)
      λ _. Safe-pure _
pdu-Safe (Pdu.enquire_link_resp c) m e =
    Safe-bind _
      (Safe-bind _ (frame-Safe c.base m _ e (λ _. Responses.enquire_link_resp-Safe c))
        λ _. Safe-pure _)
      λ _. Safe-pure _
pdu-Safe (Pdu.generic_nack c) m e =
    Safe-bind _
      (Safe-bind _ (frame-Safe c.base m _ e (λ _. Responses.generic_nack-Safe c)) λ _. Safe-pure _)
      λ _. Safe-pure _
pdu-Safe (Pdu.outbind c) m e =
    Safe-bind _
      (Safe-bind _ (frame-Safe c.base m _ e (λ _. Requests.outbind-Safe c)) λ _. Safe-pure _)
      λ _. Safe-pure _
pdu-Safe (Pdu.query_sm c) m e =
    Safe-bind _
      (Safe-bind _ (frame-Safe c.base m _ e (λ _. Requests.query_sm-Safe c)) λ _. Safe-pure _)
      λ _. Safe-pure _
pdu-Safe (Pdu.query_sm_resp c) m e =
    Safe-bind _
      (Safe-bind _ (frame-Safe c.base m _ e (λ _. Responses.query_sm_resp-Safe c)) λ _. Safe-pure _)
      λ _. Safe-pure _
pdu-Safe (Pdu.replace_sm c) m e =
    Safe-bind _
      (Safe-bind _ (frame-Safe c.base m _ e (λ _. Requests.replace_sm-Safe c)) λ _. Safe-pure _)
      λ _. Safe-pure _
pdu-Safe (Pdu.replace_sm_resp c) m e =
    Safe-bind _
      (Safe-bind _ (frame-Safe c.base m _ e (λ _. Responses.replace_sm_resp-Safe c))
        λ _. Safe-pure _)
      λ _. Safe-pure _
pdu-Safe (Pdu.submit_multi c) m e =
    Safe-bind _
      (Safe-bind _ (frame-Safe c.base m _ e (λ _. Requests.submit_multi-Safe c)) λ _. Safe-pure _)
      λ _. Safe-pure _
pdu-Safe (Pdu.submit_multi_resp c) m e =
    Safe-bind _
      (Safe-bind _ (frame-Safe c.base m _ e (λ _. Responses.submit_multi_resp-Safe c))
        λ _. Safe-pure _)
      λ _. Safe-pure _
pdu-Safe (Pdu.submit_sm c) m e =
    Safe-bind _
      (Safe-bind _ (frame-Safe c.base m _ e (λ _. Requests.submit_sm-Safe c)) λ _. Safe-pure _)
      λ _. Safe-pure _
pdu-Safe (Pdu.submit_sm_resp c) m e =
    Safe-bind _
      (Safe-bind _ (frame-Safe c.base m _ e (λ _. Responses.submit_sm_resp-Safe c))
        λ _. Safe-pure _)
      λ _. Safe-pure _
pdu-Safe (Pdu.unbind c) m e =
    Safe-bind _
      (Safe-bind _ (frame-Safe c.base m _ e (λ _. Requests.unbind-Safe c)) λ _. Safe-pure _)
      λ _. Safe-pure _
pdu-Safe (Pdu.unbind_resp c) m e =
    Safe-bind _
      (Safe-bind _ (frame-Safe c.base m _ e (λ _. Responses.unbind_resp-Safe c)) λ _. Safe-pure _)
      λ _. Safe-pure _

-- The PDU that was created has an empty map; the error, where there is none, is returned.
abbrev pub HasMap : (Error ⊎ Pdu) × Globals → Type 0
HasMap (inl e, g) = is_returned e ≡ true
HasMap (inr p, g) = (base_of p).optional_parameters ≡ some []

either_way :
    (b : Bool) (x y : (Error ⊎ Pdu) × Globals) → HasMap x → HasMap y → HasMap (if b then x else y)
either_way true x y h k = h
either_way false x y h k = k

pub create_pdu_from_cmd_id-HasMap :
    (g : Globals) (id : ℕ) → id ≢ CommandId.query_sm → HasMap (create_pdu_from_cmd_id g id)
unfolding create_pdu_from_cmd_id new_base set_command_id AlertNotification.new BindRequest.new
    CancelSm.new CancelSmResp.new DataSm.new DataSmResp.new DeliverSm.new DeliverSmResp.new
    EnquireLink.new EnquireLinkResp.new GenericNack.new Outbind.new QuerySmResp.new ReplaceSm.new
    ReplaceSmResp.new SubmitMulti.new SubmitMultiResp.new SubmitSm.new SubmitSmResp.new Unbind.new
    UnbindResp.new BindResp.new_bind_transmitter_resp BindResp.new_bind_transceiver_resp
    BindResp.new_bind_receiver_resp
create_pdu_from_cmd_id-HasMap g id other = either_way (id == CommandId.bind_transmitter) _ _ refl (
    either_way (id == CommandId.bind_transmitter_resp) _ _ refl (
      either_way (id == CommandId.bind_transceiver) _ _ refl (
        either_way (id == CommandId.bind_transceiver_resp) _ _ refl (
          either_way (id == CommandId.bind_receiver) _ _ refl (
            either_way (id == CommandId.bind_receiver_resp) _ _ refl (
              either_way (id == CommandId.unbind) _ _ refl (
                either_way (id == CommandId.unbind_resp) _ _ refl (
                  either_way (id == CommandId.outbind) _ _ refl (
                    either_way (id == CommandId.submit_sm) _ _ refl (
                      either_way (id == CommandId.submit_sm_resp) _ _ refl (
                        either_way (id == CommandId.submit_multi) _ _ refl (
                          either_way (id == CommandId.submit_multi_resp) _ _ refl (
                            either_way (id == CommandId.deliver_sm) _ _ refl (
                              either_way (id == CommandId.deliver_sm_resp) _ _ refl (
                                either_way (id == CommandId.data_sm) _ _ refl (
                                  either_way (id == CommandId.data_sm_resp) _ _ refl
                                    (elim (Bool-cases (id == CommandId.query_sm)) [
                                      | inl e ↦ absurd (other (ground arith))
                                      | inr e ↦ rw e (
                                          either_way (id == CommandId.query_sm_resp) _ _ refl (
                                            either_way (id == CommandId.cancel_sm) _ _ refl (
                                              either_way (id == CommandId.cancel_sm_resp) _ _ refl (
                                                either_way (id == CommandId.replace_sm) _ _ refl (
                                                  either_way (id == CommandId.replace_sm_resp) _ _
                                                    refl
                                                    (either_way (id == CommandId.enquire_link) _ _
                                                      refl
                                                      (either_way
                                                        (id == CommandId.enquire_link_resp) _ _ refl
                                                        (either_way
                                                          (id == CommandId.alert_notification) _ _
                                                          refl
                                                          (either_way (id == CommandId.generic_nack)
                                                            _ _ refl (refl))))))))))
                                    ])))))))))))))))))
