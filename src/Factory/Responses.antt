-- ===== src/Factory/Responses.antt =====
-- The responses of the factory of pdu/PDUFactory.go.
use gosmpp.Prelude.{sym, inl, inr}
use gosmpp.Globals.{Globals}
use gosmpp.Base.{new_base, set_command_id}
use gosmpp.Packet.{Pdu}
use gosmpp.Wire.RoundTrip.{Fresh}
use gosmpp.Factory.{create_pdu_from_cmd_id}
use gosmpp.Pdu.BindResp
use gosmpp.Pdu.CancelSmResp
use gosmpp.Pdu.DataSmResp
use gosmpp.Pdu.DeliverSmResp
use gosmpp.Pdu.EnquireLinkResp
use gosmpp.Pdu.GenericNack
use gosmpp.Pdu.QuerySmResp
use gosmpp.Pdu.ReplaceSmResp
use gosmpp.Pdu.SubmitMultiResp
use gosmpp.Pdu.SubmitSmResp
use gosmpp.Pdu.UnbindResp
use gosmpp.Factory.Typed.{IsTyped, Creates}

pub bind_resp-Creates :
    (g : Globals) (c : BindResp.BindResp) → IsTyped (Pdu.bind_resp c) → Creates g (Pdu.bind_resp c)
unfolding create_pdu_from_cmd_id BindResp.new_bind_transmitter_resp
    BindResp.new_bind_transceiver_resp BindResp.new_bind_receiver_resp new_base set_command_id
bind_resp-Creates g c (inl e, map) = (
  Pdu.bind_resp (BindResp.new_bind_transmitter_resp g).0,
  (BindResp.new_bind_transmitter_resp g).1,
  rw e,
  Fresh.bind_resp (record { options = sym map }),
)
bind_resp-Creates g c (inr (inl e), map) = (
  Pdu.bind_resp (BindResp.new_bind_transceiver_resp g).0,
  (BindResp.new_bind_transceiver_resp g).1,
  rw e,
  Fresh.bind_resp (record { options = sym map }),
)
bind_resp-Creates g c (inr (inr e), map) = (
  Pdu.bind_resp (BindResp.new_bind_receiver_resp g).0,
  (BindResp.new_bind_receiver_resp g).1,
  rw e,
  Fresh.bind_resp (record { options = sym map }),
)

pub cancel_sm_resp-Creates :
    (g : Globals) (c : CancelSmResp.CancelSmResp)
    → IsTyped (Pdu.cancel_sm_resp c)
    → Creates g (Pdu.cancel_sm_resp c)
unfolding create_pdu_from_cmd_id CancelSmResp.new new_base set_command_id
cancel_sm_resp-Creates g c (id, map) = (
  Pdu.cancel_sm_resp ((CancelSmResp.new g).0),
  (CancelSmResp.new g).1,
  rw id,
  Fresh.cancel_sm_resp (record { options = sym map }),
)

pub data_sm_resp-Creates :
    (g : Globals) (c : DataSmResp.DataSmResp)
    → IsTyped (Pdu.data_sm_resp c)
    → Creates g (Pdu.data_sm_resp c)
unfolding create_pdu_from_cmd_id DataSmResp.new new_base set_command_id
data_sm_resp-Creates g c (id, map) = (
  Pdu.data_sm_resp ((DataSmResp.new g).0),
  (DataSmResp.new g).1,
  rw id,
  Fresh.data_sm_resp (record { options = sym map }),
)

pub deliver_sm_resp-Creates :
    (g : Globals) (c : DeliverSmResp.DeliverSmResp)
    → IsTyped (Pdu.deliver_sm_resp c)
    → Creates g (Pdu.deliver_sm_resp c)
unfolding create_pdu_from_cmd_id DeliverSmResp.new new_base set_command_id
deliver_sm_resp-Creates g c (id, map) = (
  Pdu.deliver_sm_resp ((DeliverSmResp.new g).0),
  (DeliverSmResp.new g).1,
  rw id,
  Fresh.deliver_sm_resp (record { options = sym map }),
)

pub enquire_link_resp-Creates :
    (g : Globals) (c : EnquireLinkResp.EnquireLinkResp)
    → IsTyped (Pdu.enquire_link_resp c)
    → Creates g (Pdu.enquire_link_resp c)
unfolding create_pdu_from_cmd_id EnquireLinkResp.new new_base set_command_id
enquire_link_resp-Creates g c (id, map) = (
  Pdu.enquire_link_resp ((EnquireLinkResp.new g).0),
  (EnquireLinkResp.new g).1,
  rw id,
  Fresh.enquire_link_resp (record { options = sym map }),
)

pub generic_nack-Creates :
    (g : Globals) (c : GenericNack.GenericNack)
    → IsTyped (Pdu.generic_nack c)
    → Creates g (Pdu.generic_nack c)
unfolding create_pdu_from_cmd_id GenericNack.new new_base set_command_id
generic_nack-Creates g c (id, map) = (
  Pdu.generic_nack ((GenericNack.new g).0),
  (GenericNack.new g).1,
  rw id,
  Fresh.generic_nack (record { options = sym map }),
)

pub query_sm_resp-Creates :
    (g : Globals) (c : QuerySmResp.QuerySmResp)
    → IsTyped (Pdu.query_sm_resp c)
    → Creates g (Pdu.query_sm_resp c)
unfolding create_pdu_from_cmd_id QuerySmResp.new new_base set_command_id
query_sm_resp-Creates g c (id, map) = (
  Pdu.query_sm_resp ((QuerySmResp.new g).0),
  (QuerySmResp.new g).1,
  rw id,
  Fresh.query_sm_resp (record { options = sym map }),
)

pub replace_sm_resp-Creates :
    (g : Globals) (c : ReplaceSmResp.ReplaceSmResp)
    → IsTyped (Pdu.replace_sm_resp c)
    → Creates g (Pdu.replace_sm_resp c)
unfolding create_pdu_from_cmd_id ReplaceSmResp.new new_base set_command_id
replace_sm_resp-Creates g c (id, map) = (
  Pdu.replace_sm_resp ((ReplaceSmResp.new g).0),
  (ReplaceSmResp.new g).1,
  rw id,
  Fresh.replace_sm_resp (record { options = sym map }),
)

pub submit_multi_resp-Creates :
    (g : Globals) (c : SubmitMultiResp.SubmitMultiResp)
    → IsTyped (Pdu.submit_multi_resp c)
    → Creates g (Pdu.submit_multi_resp c)
unfolding create_pdu_from_cmd_id SubmitMultiResp.new new_base set_command_id
submit_multi_resp-Creates g c (id, map) = (
  Pdu.submit_multi_resp ((SubmitMultiResp.new g).0),
  (SubmitMultiResp.new g).1,
  rw id,
  Fresh.submit_multi_resp (record { options = sym map }),
)

pub submit_sm_resp-Creates :
    (g : Globals) (c : SubmitSmResp.SubmitSmResp)
    → IsTyped (Pdu.submit_sm_resp c)
    → Creates g (Pdu.submit_sm_resp c)
unfolding create_pdu_from_cmd_id SubmitSmResp.new new_base set_command_id
submit_sm_resp-Creates g c (id, map) = (
  Pdu.submit_sm_resp ((SubmitSmResp.new g).0),
  (SubmitSmResp.new g).1,
  rw id,
  Fresh.submit_sm_resp (record { options = sym map }),
)

pub unbind_resp-Creates :
    (g : Globals) (c : UnbindResp.UnbindResp)
    → IsTyped (Pdu.unbind_resp c)
    → Creates g (Pdu.unbind_resp c)
unfolding create_pdu_from_cmd_id UnbindResp.new new_base set_command_id
unbind_resp-Creates g c (id, map) = (
  Pdu.unbind_resp ((UnbindResp.new g).0),
  (UnbindResp.new g).1,
  rw id,
  Fresh.unbind_resp (record { options = sym map }),
)
