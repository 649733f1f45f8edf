-- ===== src/NoPanic/Responses.antt =====
-- The bodies of the responses.
use gosmpp.Prelude.{Bool-cases, inl, inr}
use gosmpp.Outcome.{Bytes, Outcome, ok, err, eof}
use gosmpp.Header.{Header}
use gosmpp.Buffer.{read_c_string}
use gosmpp.Buffer.Safety.{
  Safe, Safe-pure, Safe-bind, byte-Safe, c_string-Safe, Returned, Consumes-Safe,
}
use gosmpp.NoPanic.Fields.{smes-Safe}
use gosmpp.Pdu.BindResp.{has_system_id}
use gosmpp.Pdu.SubmitSmResp.RoundTrip as SubmitSmRespTrip
use gosmpp.Pdu.BindResp
use gosmpp.Pdu.CancelSmResp
use gosmpp.Pdu.DataSmResp
use gosmpp.Pdu.DeliverSmResp
use gosmpp.Pdu.EnquireLinkResp
use gosmpp.Pdu.GenericNack
use gosmpp.Pdu.QuerySmResp
use gosmpp.Pdu.ReplaceSmResp
use gosmpp.Pdu.SubmitMultiResp
use gosmpp.Pdu.SubmitSmResp
use gosmpp.Pdu.UnbindResp

pub bind_resp-Safe : (c : BindResp.BindResp) (h : Header) → Safe (BindResp.read_body c h)
unfolding BindResp.read_body
bind_resp-Safe c h = elim (Bool-cases (has_system_id h)) [
  | inl e ↦ rw e (Safe-bind _ c_string-Safe λ _. Safe-pure _)
  | inr e ↦ rw e (Safe-pure c)
]

pub cancel_sm_resp-Safe : (c : CancelSmResp.CancelSmResp) → Safe (CancelSmResp.read_body c)
unfolding CancelSmResp.read_body
cancel_sm_resp-Safe c = Safe-pure _

pub data_sm_resp-Safe : (c : DataSmResp.DataSmResp) → Safe (DataSmResp.read_body c)
unfolding DataSmResp.read_body
data_sm_resp-Safe c = Safe-bind _ c_string-Safe λ _. Safe-pure _

pub deliver_sm_resp-Safe : (c : DeliverSmResp.DeliverSmResp) → Safe (DeliverSmResp.read_body c)
unfolding DeliverSmResp.read_body
deliver_sm_resp-Safe c = Safe-bind _ c_string-Safe λ _. Safe-pure _

pub enquire_link_resp-Safe :
    (c : EnquireLinkResp.EnquireLinkResp) → Safe (EnquireLinkResp.read_body c)
unfolding EnquireLinkResp.read_body
enquire_link_resp-Safe c = Safe-pure _

pub generic_nack-Safe : (c : GenericNack.GenericNack) → Safe (GenericNack.read_body c)
unfolding GenericNack.read_body
generic_nack-Safe c = Safe-pure _

pub query_sm_resp-Safe : (c : QuerySmResp.QuerySmResp) → Safe (QuerySmResp.read_body c)
unfolding QuerySmResp.read_body
query_sm_resp-Safe c = Safe-bind _ c_string-Safe λ _.
    Safe-bind _ c_string-Safe λ _. Safe-bind _ byte-Safe λ _. Safe-bind _ byte-Safe λ _. Safe-pure _

pub replace_sm_resp-Safe : (c : ReplaceSmResp.ReplaceSmResp) → Safe (ReplaceSmResp.read_body c)
unfolding ReplaceSmResp.read_body
replace_sm_resp-Safe c = Safe-pure _

pub submit_multi_resp-Safe :
    (c : SubmitMultiResp.SubmitMultiResp) → Safe (SubmitMultiResp.read_body c)
unfolding SubmitMultiResp.read_body
submit_multi_resp-Safe c = Safe-bind _ c_string-Safe λ _. Safe-bind _ smes-Safe λ _. Safe-pure _

pub submit_sm_resp-Safe : (c : SubmitSmResp.SubmitSmResp) → Safe (SubmitSmResp.read_body c)
unfolding SubmitSmResp.read_body SubmitSmResp.forgive_eof
submit_sm_resp-Safe c =
    Consumes-Safe (SubmitSmRespTrip.body-Consumes c)
      λ b h. go (read_c_string b) (c_string-Safe.returned b h)
  where
    go : (o : Outcome Bytes) → Returned o → Returned (SubmitSmResp.forgive_eof c o)
    go (ok s b) r = tt
    go (err eof b) r = tt
    go (err _ b) r = r

pub unbind_resp-Safe : (c : UnbindResp.UnbindResp) → Safe (UnbindResp.read_body c)
unfolding UnbindResp.read_body
unbind_resp-Safe c = Safe-pure _
