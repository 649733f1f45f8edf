-- ===== src/Factory/Requests.antt =====
-- The PDUs of the factory of pdu/PDUFactory.go that ask or notify.
use gosmpp.Prelude.{◌≡◌, refl, sym, ap, inr}
use gosmpp.Globals.{Globals}
use gosmpp.Base.{new_base, set_command_id}
use gosmpp.ShortMessage.RoundTrip.{blank}
use gosmpp.Packet.{Pdu}
use gosmpp.Wire.RoundTrip.{Fresh}
use gosmpp.Factory.{create_pdu_from_cmd_id}
use gosmpp.Pdu.BindRequest.{bind_id, receiver, transceiver, transmitter}
use gosmpp.Pdu.AlertNotification
use gosmpp.Pdu.BindRequest
use gosmpp.Pdu.CancelSm
use gosmpp.Pdu.DataSm
use gosmpp.Pdu.DeliverSm
use gosmpp.Pdu.EnquireLink
use gosmpp.Pdu.Outbind
use gosmpp.Pdu.QuerySm
use gosmpp.Pdu.ReplaceSm
use gosmpp.Pdu.SubmitMulti
use gosmpp.Pdu.SubmitSm
use gosmpp.Pdu.Unbind
use gosmpp.Factory.Typed.{IsTyped, Creates}

pub alert_notification-Creates :
    (g : Globals) (c : AlertNotification.AlertNotification)
    → IsTyped (Pdu.alert_notification c)
    → Creates g (Pdu.alert_notification c)
unfolding create_pdu_from_cmd_id AlertNotification.new new_base set_command_id
alert_notification-Creates g c (id, map) = (
  Pdu.alert_notification ((AlertNotification.new g).0),
  (AlertNotification.new g).1,
  rw id,
  Fresh.alert_notification (record { options = sym map }),
)

pub bind_request-Creates :
    (g : Globals) (c : BindRequest.BindRequest)
    → IsTyped (Pdu.bind_request c)
    → Creates g (Pdu.bind_request c)
unfolding create_pdu_from_cmd_id BindRequest.new new_base set_command_id
bind_request-Creates g c (id, map) = (
  Pdu.bind_request (BindRequest.new c.binding_type g).0,
  (BindRequest.new c.binding_type g).1,
  made c.binding_type id,
  Fresh.bind_request (record { options = sym map; same_type = refl }),
)
  where
    made :
        (t : BindRequest.BindingType)
        → c.base.header.command_id ≡ bind_id t
        → create_pdu_from_cmd_id g c.base.header.command_id
          ≡ (inr (Pdu.bind_request (BindRequest.new t g).0), (BindRequest.new t g).1)
    made receiver e = rw e
    made transceiver e = rw e
    made transmitter e = rw e

pub cancel_sm-Creates :
    (g : Globals) (c : CancelSm.CancelSm) → IsTyped (Pdu.cancel_sm c) → Creates g (Pdu.cancel_sm c)
unfolding create_pdu_from_cmd_id CancelSm.new new_base set_command_id
cancel_sm-Creates g c (id, map) = (
  Pdu.cancel_sm ((CancelSm.new g).0),
  (CancelSm.new g).1,
  rw id,
  Fresh.cancel_sm (record { options = sym map }),
)

pub data_sm-Creates :
    (g : Globals) (c : DataSm.DataSm) → IsTyped (Pdu.data_sm c) → Creates g (Pdu.data_sm c)
unfolding create_pdu_from_cmd_id DataSm.new new_base set_command_id
data_sm-Creates g c (id, map) = (
  Pdu.data_sm ((DataSm.new g).0),
  (DataSm.new g).1,
  rw id,
  Fresh.data_sm (record { options = sym map }),
)

pub deliver_sm-Creates :
    (g : Globals) (c : DeliverSm.DeliverSm)
    → IsTyped (Pdu.deliver_sm c)
    → Creates g (Pdu.deliver_sm c)
unfolding create_pdu_from_cmd_id DeliverSm.new new_base set_command_id
deliver_sm-Creates g c (id, map, coding) = (
  Pdu.deliver_sm ((DeliverSm.new g).0),
  (DeliverSm.new g).1,
  rw id,
  Fresh.deliver_sm (record { options = sym map; no_message = ap blank (sym coding) }),
)

pub enquire_link-Creates :
    (g : Globals) (c : EnquireLink.EnquireLink)
    → IsTyped (Pdu.enquire_link c)
    → Creates g (Pdu.enquire_link c)
unfolding create_pdu_from_cmd_id EnquireLink.new new_base set_command_id
enquire_link-Creates g c (id, map) = (
  Pdu.enquire_link ((EnquireLink.new g).0),
  (EnquireLink.new g).1,
  rw id,
  Fresh.enquire_link (record { options = sym map }),
)

pub outbind-Creates :
    (g : Globals) (c : Outbind.Outbind) → IsTyped (Pdu.outbind c) → Creates g (Pdu.outbind c)
unfolding create_pdu_from_cmd_id Outbind.new new_base set_command_id
outbind-Creates g c (id, map) = (
  Pdu.outbind ((Outbind.new g).0),
  (Outbind.new g).1,
  rw id,
  Fresh.outbind (record { options = sym map }),
)

pub query_sm-Creates :
    (g : Globals) (c : QuerySm.QuerySm) → IsTyped (Pdu.query_sm c) → Creates g (Pdu.query_sm c)
unfolding create_pdu_from_cmd_id QuerySm.new new_base set_command_id
query_sm-Creates g c (id, map) =
    (Pdu.query_sm (QuerySm.new g), g, rw id, Fresh.query_sm (record { options = sym map }))

pub replace_sm-Creates :
    (g : Globals) (c : ReplaceSm.ReplaceSm)
    → IsTyped (Pdu.replace_sm c)
    → Creates g (Pdu.replace_sm c)
unfolding create_pdu_from_cmd_id ReplaceSm.new new_base set_command_id
replace_sm-Creates g c (id, map, coding) = (
  Pdu.replace_sm ((ReplaceSm.new g).0),
  (ReplaceSm.new g).1,
  rw id,
  Fresh.replace_sm (record { options = sym map; no_message = ap blank (sym coding) }),
)

pub submit_multi-Creates :
    (g : Globals) (c : SubmitMulti.SubmitMulti)
    → IsTyped (Pdu.submit_multi c)
    → Creates g (Pdu.submit_multi c)
unfolding create_pdu_from_cmd_id SubmitMulti.new new_base set_command_id
submit_multi-Creates g c (id, map, coding) = (
  Pdu.submit_multi ((SubmitMulti.new g).0),
  (SubmitMulti.new g).1,
  rw id,
  Fresh.submit_multi (record { options = sym map; no_message = ap blank (sym coding) }),
)

pub submit_sm-Creates :
    (g : Globals) (c : SubmitSm.SubmitSm) → IsTyped (Pdu.submit_sm c) → Creates g (Pdu.submit_sm c)
unfolding create_pdu_from_cmd_id SubmitSm.new new_base set_command_id
submit_sm-Creates g c (id, map, coding) = (
  Pdu.submit_sm ((SubmitSm.new g).0),
  (SubmitSm.new g).1,
  rw id,
  Fresh.submit_sm (record { options = sym map; no_message = ap blank (sym coding) }),
)

pub unbind-Creates :
    (g : Globals) (c : Unbind.Unbind) → IsTyped (Pdu.unbind c) → Creates g (Pdu.unbind c)
unfolding create_pdu_from_cmd_id Unbind.new new_base set_command_id
unbind-Creates g c (id, map) = (
  Pdu.unbind ((Unbind.new g).0),
  (Unbind.new g).1,
  rw id,
  Fresh.unbind (record { options = sym map }),
)
