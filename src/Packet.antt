-- ===== src/Packet.antt =====
-- The PDU interface of pdu/PDU.go: a constructor for each type that implements it.
use gosmpp.Prelude.{ℕ, Bool, ◌⊎◌, inl, inr}
use gosmpp.Outcome.{Error}
use gosmpp.Base
use gosmpp.Base.{Base}
use gosmpp.Tlv.{Field}
use gosmpp.Pdu.AlertNotification.{AlertNotification}
use gosmpp.Pdu.BindRequest.{BindRequest}
use gosmpp.Pdu.BindResp.{BindResp}
use gosmpp.Pdu.CancelSm.{CancelSm}
use gosmpp.Pdu.CancelSmResp.{CancelSmResp}
use gosmpp.Pdu.DataSm.{DataSm}
use gosmpp.Pdu.DataSmResp.{DataSmResp}
use gosmpp.Pdu.DeliverSm.{DeliverSm}
use gosmpp.Pdu.DeliverSmResp.{DeliverSmResp}
use gosmpp.Pdu.EnquireLink.{EnquireLink}
use gosmpp.Pdu.EnquireLinkResp.{EnquireLinkResp}
use gosmpp.Pdu.GenericNack.{GenericNack}
use gosmpp.Pdu.Outbind.{Outbind}
use gosmpp.Pdu.QuerySm.{QuerySm}
use gosmpp.Pdu.QuerySmResp.{QuerySmResp}
use gosmpp.Pdu.ReplaceSm.{ReplaceSm}
use gosmpp.Pdu.ReplaceSmResp.{ReplaceSmResp}
use gosmpp.Pdu.SubmitMulti.{SubmitMulti}
use gosmpp.Pdu.SubmitMultiResp.{SubmitMultiResp}
use gosmpp.Pdu.SubmitSm.{SubmitSm}
use gosmpp.Pdu.SubmitSmResp.{SubmitSmResp}
use gosmpp.Pdu.Unbind.{Unbind}
use gosmpp.Pdu.UnbindResp.{UnbindResp}

pub data Pdu : Type 0 where
  alert_notification : AlertNotification → Pdu
  bind_request : BindRequest → Pdu
  bind_resp : BindResp → Pdu
  cancel_sm : CancelSm → Pdu
  cancel_sm_resp : CancelSmResp → Pdu
  data_sm : DataSm → Pdu
  data_sm_resp : DataSmResp → Pdu
  deliver_sm : DeliverSm → Pdu
  deliver_sm_resp : DeliverSmResp → Pdu
  enquire_link : EnquireLink → Pdu
  enquire_link_resp : EnquireLinkResp → Pdu
  generic_nack : GenericNack → Pdu
  outbind : Outbind → Pdu
  query_sm : QuerySm → Pdu
  query_sm_resp : QuerySmResp → Pdu
  replace_sm : ReplaceSm → Pdu
  replace_sm_resp : ReplaceSmResp → Pdu
  submit_multi : SubmitMulti → Pdu
  submit_multi_resp : SubmitMultiResp → Pdu
  submit_sm : SubmitSm → Pdu
  submit_sm_resp : SubmitSmResp → Pdu
  unbind : Unbind → Pdu
  unbind_resp : UnbindResp → Pdu

abbrev pub base_of : Pdu → Base
base_of (alert_notification c) = c.base
base_of (bind_request c) = c.base
base_of (bind_resp c) = c.base
base_of (cancel_sm c) = c.base
base_of (cancel_sm_resp c) = c.base
base_of (data_sm c) = c.base
base_of (data_sm_resp c) = c.base
base_of (deliver_sm c) = c.base
base_of (deliver_sm_resp c) = c.base
base_of (enquire_link c) = c.base
base_of (enquire_link_resp c) = c.base
base_of (generic_nack c) = c.base
base_of (outbind c) = c.base
base_of (query_sm c) = c.base
base_of (query_sm_resp c) = c.base
base_of (replace_sm c) = c.base
base_of (replace_sm_resp c) = c.base
base_of (submit_multi c) = c.base
base_of (submit_multi_resp c) = c.base
base_of (submit_sm c) = c.base
base_of (submit_sm_resp c) = c.base
base_of (unbind c) = c.base
base_of (unbind_resp c) = c.base

unfoldable pub with_base : Base → Pdu → Pdu
with_base b (alert_notification c) = alert_notification (record c { base = b })
with_base b (bind_request c) = bind_request (record c { base = b })
with_base b (bind_resp c) = bind_resp (record c { base = b })
with_base b (cancel_sm c) = cancel_sm (record c { base = b })
with_base b (cancel_sm_resp c) = cancel_sm_resp (record c { base = b })
with_base b (data_sm c) = data_sm (record c { base = b })
with_base b (data_sm_resp c) = data_sm_resp (record c { base = b })
with_base b (deliver_sm c) = deliver_sm (record c { base = b })
with_base b (deliver_sm_resp c) = deliver_sm_resp (record c { base = b })
with_base b (enquire_link c) = enquire_link (record c { base = b })
with_base b (enquire_link_resp c) = enquire_link_resp (record c { base = b })
with_base b (generic_nack c) = generic_nack (record c { base = b })
with_base b (outbind c) = outbind (record c { base = b })
with_base b (query_sm c) = query_sm (record c { base = b })
with_base b (query_sm_resp c) = query_sm_resp (record c { base = b })
with_base b (replace_sm c) = replace_sm (record c { base = b })
with_base b (replace_sm_resp c) = replace_sm_resp (record c { base = b })
with_base b (submit_multi c) = submit_multi (record c { base = b })
with_base b (submit_multi_resp c) = submit_multi_resp (record c { base = b })
with_base b (submit_sm c) = submit_sm (record c { base = b })
with_base b (submit_sm_resp c) = submit_sm_resp (record c { base = b })
with_base b (unbind c) = unbind (record c { base = b })
with_base b (unbind_resp c) = unbind_resp (record c { base = b })

unfoldable pub get_sequence_number : Pdu → ℕ
get_sequence_number p = (base_of p).header.sequence_number

unfoldable pub set_sequence_number : ℕ → Pdu → Pdu
set_sequence_number v p = with_base (Base.set_sequence_number v (base_of p)) p

unfoldable pub is_ok : Pdu → Bool
is_ok p = Base.is_ok (base_of p)

unfoldable pub is_g_nack : Pdu → Bool
is_g_nack p = Base.is_g_nack (base_of p)

registered : Pdu → Error ⊎ Base → Error ⊎ Pdu
registered p (inl e) = inl e
registered p (inr b) = inr (with_base b p)

unfoldable pub register_optional_param : Field → Pdu → Error ⊎ Pdu
unfolding registered
register_optional_param tlv p = registered p (Base.register_optional_param tlv (base_of p))
