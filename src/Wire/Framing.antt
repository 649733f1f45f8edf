-- ===== src/Wire/Framing.antt =====
-- How much of a buffer the Unmarshal methods of the PDU types take, and which header they find.
use gosmpp.Prelude.{◌≡◌, ◌+◌, length}
use mathlib.Core.Path.{subst₂}
use gosmpp.Outcome.{Bytes, Outcome, ok, ok-injective, and_then, and_then-eq-ok, pure, ◌>>=◌}
use gosmpp.Header.{parse_header}
use gosmpp.Base.{Base}
use gosmpp.Packet.{
  Pdu, base_of, alert_notification, bind_request, bind_resp, cancel_sm, cancel_sm_resp, data_sm,
  data_sm_resp, deliver_sm, deliver_sm_resp, enquire_link, enquire_link_resp, generic_nack, outbind,
  query_sm, query_sm_resp, replace_sm, replace_sm_resp, submit_multi, submit_multi_resp, submit_sm,
  submit_sm_resp, unbind, unbind_resp,
}
use gosmpp.Wire.{unmarshal}
use gosmpp.Pdu.AlertNotification
use gosmpp.Pdu.AlertNotification.RoundTrip as AlertNotificationTrip
use gosmpp.Pdu.BindRequest
use gosmpp.Pdu.BindRequest.RoundTrip as BindRequestTrip
use gosmpp.Pdu.BindResp
use gosmpp.Pdu.BindResp.RoundTrip as BindRespTrip
use gosmpp.Pdu.CancelSm
use gosmpp.Pdu.CancelSm.RoundTrip as CancelSmTrip
use gosmpp.Pdu.CancelSmResp
use gosmpp.Pdu.CancelSmResp.RoundTrip as CancelSmRespTrip
use gosmpp.Pdu.DataSm
use gosmpp.Pdu.DataSm.RoundTrip as DataSmTrip
use gosmpp.Pdu.DataSmResp
use gosmpp.Pdu.DataSmResp.RoundTrip as DataSmRespTrip
use gosmpp.Pdu.DeliverSm
use gosmpp.Pdu.DeliverSm.RoundTrip as DeliverSmTrip
use gosmpp.Pdu.DeliverSmResp
use gosmpp.Pdu.DeliverSmResp.RoundTrip as DeliverSmRespTrip
use gosmpp.Pdu.EnquireLink
use gosmpp.Pdu.EnquireLink.RoundTrip as EnquireLinkTrip
use gosmpp.Pdu.EnquireLinkResp
use gosmpp.Pdu.EnquireLinkResp.RoundTrip as EnquireLinkRespTrip
use gosmpp.Pdu.GenericNack
use gosmpp.Pdu.GenericNack.RoundTrip as GenericNackTrip
use gosmpp.Pdu.Outbind
use gosmpp.Pdu.Outbind.RoundTrip as OutbindTrip
use gosmpp.Pdu.QuerySm
use gosmpp.Pdu.QuerySm.RoundTrip as QuerySmTrip
use gosmpp.Pdu.QuerySmResp
use gosmpp.Pdu.QuerySmResp.RoundTrip as QuerySmRespTrip
use gosmpp.Pdu.ReplaceSm
use gosmpp.Pdu.ReplaceSm.RoundTrip as ReplaceSmTrip
use gosmpp.Pdu.ReplaceSmResp
use gosmpp.Pdu.ReplaceSmResp.RoundTrip as ReplaceSmRespTrip
use gosmpp.Pdu.SubmitMulti
use gosmpp.Pdu.SubmitMulti.RoundTrip as SubmitMultiTrip
use gosmpp.Pdu.SubmitMultiResp
use gosmpp.Pdu.SubmitMultiResp.RoundTrip as SubmitMultiRespTrip
use gosmpp.Pdu.SubmitSm
use gosmpp.Pdu.SubmitSm.RoundTrip as SubmitSmTrip
use gosmpp.Pdu.SubmitSmResp
use gosmpp.Pdu.SubmitSmResp.RoundTrip as SubmitSmRespTrip
use gosmpp.Pdu.Unbind
use gosmpp.Pdu.Unbind.RoundTrip as UnbindTrip
use gosmpp.Pdu.UnbindResp
use gosmpp.Pdu.UnbindResp.RoundTrip as UnbindRespTrip

-- The header of `p` is the first of the buffer `b`, and its command length is what was taken.
pub record IsFrameOf (b : Bytes) (p : Base) (rest : Bytes) : Type 0 where
  pub header_first : p.header ≡ parse_header b
  pub exact : length b ≡ p.header.command_length + length rest

wrapped {ℓ} :
    {A : Type ℓ} (o : Outcome A) (wrap : A → Pdu) (b : Bytes) {p : Pdu} {rest : Bytes}
    → ((a : A) (left : Bytes) → o ≡ ok a left → IsFrameOf b (base_of (wrap a)) left)
    → and_then o (λ a. pure (wrap a)) ≡ ok p rest
    → IsFrameOf b (base_of p) rest
unfolding pure
wrapped o wrap b {p} {rest} k e =
    let (a, left, e1, e2) = and_then-eq-ok o (λ a. pure (wrap a)) e in
    let (same, end) = ok-injective e2 in
    subst₂ (λ (q : Pdu) (l : Bytes). IsFrameOf b (base_of q) l) same end (k a left e1)

-- Whatever the bytes: if Unmarshal of any PDU type succeeds, the header it read is the one that
-- ParseHeader finds at the front, and it took exactly as many bytes as the command length says.
pub pdu-IsFrameOf :
    (p : Pdu) (b : Bytes) {p' : Pdu} {rest : Bytes}
    → unmarshal p b ≡ ok p' rest
    → IsFrameOf b (base_of p') rest
unfolding unmarshal ◌>>=◌
pdu-IsFrameOf (alert_notification c) b e =
    wrapped (AlertNotification.unmarshal c b) alert_notification b
      (λ a left q. record {
        header_first = AlertNotificationTrip.alert_notification-header c b q;
        exact = AlertNotificationTrip.alert_notification-Exact c b q;
      })
      e
pdu-IsFrameOf (bind_request c) b e =
    wrapped (BindRequest.unmarshal c b) bind_request b
      (λ a left q. record {
        header_first = BindRequestTrip.bind_request-header c b q;
        exact = BindRequestTrip.bind_request-Exact c b q;
      })
      e
pdu-IsFrameOf (bind_resp c) b e =
    wrapped (BindResp.unmarshal c b) bind_resp b
      (λ a left q. record {
        header_first = BindRespTrip.bind_resp-header c b q;
        exact = BindRespTrip.bind_resp-Exact c b q;
      })
      e
pdu-IsFrameOf (cancel_sm c) b e =
    wrapped (CancelSm.unmarshal c b) cancel_sm b
      (λ a left q. record {
        header_first = CancelSmTrip.cancel_sm-header c b q;
        exact = CancelSmTrip.cancel_sm-Exact c b q;
      })
      e
pdu-IsFrameOf (cancel_sm_resp c) b e =
    wrapped (CancelSmResp.unmarshal c b) cancel_sm_resp b
      (λ a left q. record {
        header_first = CancelSmRespTrip.cancel_sm_resp-header c b q;
        exact = CancelSmRespTrip.cancel_sm_resp-Exact c b q;
      })
      e
pdu-IsFrameOf (data_sm c) b e =
    wrapped (DataSm.unmarshal c b) data_sm b
      (λ a left q. record {
        header_first = DataSmTrip.data_sm-header c b q;
        exact = DataSmTrip.data_sm-Exact c b q;
      })
      e
pdu-IsFrameOf (data_sm_resp c) b e =
    wrapped (DataSmResp.unmarshal c b) data_sm_resp b
      (λ a left q. record {
        header_first = DataSmRespTrip.data_sm_resp-header c b q;
        exact = DataSmRespTrip.data_sm_resp-Exact c b q;
      })
      e
pdu-IsFrameOf (deliver_sm c) b e =
    wrapped (DeliverSm.unmarshal c b) deliver_sm b
      (λ a left q. record {
        header_first = DeliverSmTrip.deliver_sm-header c b q;
        exact = DeliverSmTrip.deliver_sm-Exact c b q;
      })
      e
pdu-IsFrameOf (deliver_sm_resp c) b e =
    wrapped (DeliverSmResp.unmarshal c b) deliver_sm_resp b
      (λ a left q. record {
        header_first = DeliverSmRespTrip.deliver_sm_resp-header c b q;
        exact = DeliverSmRespTrip.deliver_sm_resp-Exact c b q;
      })
      e
pdu-IsFrameOf (enquire_link c) b e =
    wrapped (EnquireLink.unmarshal c b) enquire_link b
      (λ a left q. record {
        header_first = EnquireLinkTrip.enquire_link-header c b q;
        exact = EnquireLinkTrip.enquire_link-Exact c b q;
      })
      e
pdu-IsFrameOf (enquire_link_resp c) b e =
    wrapped (EnquireLinkResp.unmarshal c b) enquire_link_resp b
      (λ a left q. record {
        header_first = EnquireLinkRespTrip.enquire_link_resp-header c b q;
        exact = EnquireLinkRespTrip.enquire_link_resp-Exact c b q;
      })
      e
pdu-IsFrameOf (generic_nack c) b e =
    wrapped (GenericNack.unmarshal c b) generic_nack b
      (λ a left q. record {
        header_first = GenericNackTrip.generic_nack-header c b q;
        exact = GenericNackTrip.generic_nack-Exact c b q;
      })
      e
pdu-IsFrameOf (outbind c) b e =
    wrapped (Outbind.unmarshal c b) outbind b
      (λ a left q. record {
        header_first = OutbindTrip.outbind-header c b q;
        exact = OutbindTrip.outbind-Exact c b q;
      })
      e
pdu-IsFrameOf (query_sm c) b e =
    wrapped (QuerySm.unmarshal c b) query_sm b
      (λ a left q. record {
        header_first = QuerySmTrip.query_sm-header c b q;
        exact = QuerySmTrip.query_sm-Exact c b q;
      })
      e
pdu-IsFrameOf (query_sm_resp c) b e =
    wrapped (QuerySmResp.unmarshal c b) query_sm_resp b
      (λ a left q. record {
        header_first = QuerySmRespTrip.query_sm_resp-header c b q;
        exact = QuerySmRespTrip.query_sm_resp-Exact c b q;
      })
      e
pdu-IsFrameOf (replace_sm c) b e =
    wrapped (ReplaceSm.unmarshal c b) replace_sm b
      (λ a left q. record {
        header_first = ReplaceSmTrip.replace_sm-header c b q;
        exact = ReplaceSmTrip.replace_sm-Exact c b q;
      })
      e
pdu-IsFrameOf (replace_sm_resp c) b e =
    wrapped (ReplaceSmResp.unmarshal c b) replace_sm_resp b
      (λ a left q. record {
        header_first = ReplaceSmRespTrip.replace_sm_resp-header c b q;
        exact = ReplaceSmRespTrip.replace_sm_resp-Exact c b q;
      })
      e
pdu-IsFrameOf (submit_multi c) b e =
    wrapped (SubmitMulti.unmarshal c b) submit_multi b
      (λ a left q. record {
        header_first = SubmitMultiTrip.submit_multi-header c b q;
        exact = SubmitMultiTrip.submit_multi-Exact c b q;
      })
      e
pdu-IsFrameOf (submit_multi_resp c) b e =
    wrapped (SubmitMultiResp.unmarshal c b) submit_multi_resp b
      (λ a left q. record {
        header_first = SubmitMultiRespTrip.submit_multi_resp-header c b q;
        exact = SubmitMultiRespTrip.submit_multi_resp-Exact c b q;
      })
      e
pdu-IsFrameOf (submit_sm c) b e =
    wrapped (SubmitSm.unmarshal c b) submit_sm b
      (λ a left q. record {
        header_first = SubmitSmTrip.submit_sm-header c b q;
        exact = SubmitSmTrip.submit_sm-Exact c b q;
      })
      e
pdu-IsFrameOf (submit_sm_resp c) b e =
    wrapped (SubmitSmResp.unmarshal c b) submit_sm_resp b
      (λ a left q. record {
        header_first = SubmitSmRespTrip.submit_sm_resp-header c b q;
        exact = SubmitSmRespTrip.submit_sm_resp-Exact c b q;
      })
      e
pdu-IsFrameOf (unbind c) b e =
    wrapped (Unbind.unmarshal c b) unbind b
      (λ a left q. record {
        header_first = UnbindTrip.unbind-header c b q;
        exact = UnbindTrip.unbind-Exact c b q;
      })
      e
pdu-IsFrameOf (unbind_resp c) b e =
    wrapped (UnbindResp.unmarshal c b) unbind_resp b
      (λ a left q. record {
        header_first = UnbindRespTrip.unbind_resp-header c b q;
        exact = UnbindRespTrip.unbind_resp-Exact c b q;
      })
      e
