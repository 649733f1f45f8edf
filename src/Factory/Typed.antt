-- ===== src/Factory/Typed.antt =====
-- What the factory of pdu/PDUFactory.go promises about a PDU with the command identifier of its type.
use gosmpp.Prelude.{◌≡◌, ◌⊎◌, inr, none, some, [], true, false}
use gosmpp.Globals.{Globals}
use gosmpp.Base.Options.{emptied}
use gosmpp.CommandId
use gosmpp.Packet.{Pdu, base_of}
use gosmpp.Wire.RoundTrip.{Fresh}
use gosmpp.Factory.{create_pdu_from_cmd_id}
use gosmpp.Pdu.BindRequest.{bind_id}

-- A PDU as the constructors of the package make it: the command identifier of its type, a map for
-- the optional parameters (query_sm has none), and the data_coding byte unless it is a replace_sm.
abbrev pub IsTyped : Pdu → Type 0
IsTyped (Pdu.alert_notification c) =
    (c.base.header.command_id ≡ CommandId.alert_notification)
    × (emptied c.base.optional_parameters ≡ some [])
IsTyped (Pdu.bind_request c) =
    (c.base.header.command_id ≡ bind_id c.binding_type)
    × (emptied c.base.optional_parameters ≡ some [])
IsTyped (Pdu.bind_resp c) =
    ((c.base.header.command_id ≡ CommandId.bind_transmitter_resp)
      ⊎ ((c.base.header.command_id ≡ CommandId.bind_transceiver_resp)
          ⊎ (c.base.header.command_id ≡ CommandId.bind_receiver_resp)))
    × (emptied c.base.optional_parameters ≡ some [])
IsTyped (Pdu.cancel_sm c) =
    (c.base.header.command_id ≡ CommandId.cancel_sm)
    × (emptied c.base.optional_parameters ≡ some [])
IsTyped (Pdu.cancel_sm_resp c) =
    (c.base.header.command_id ≡ CommandId.cancel_sm_resp)
    × (emptied c.base.optional_parameters ≡ some [])
IsTyped (Pdu.data_sm c) =
    (c.base.header.command_id ≡ CommandId.data_sm) × (emptied c.base.optional_parameters ≡ some [])
IsTyped (Pdu.data_sm_resp c) =
    (c.base.header.command_id ≡ CommandId.data_sm_resp)
    × (emptied c.base.optional_parameters ≡ some [])
IsTyped (Pdu.deliver_sm c) =
    (c.base.header.command_id ≡ CommandId.deliver_sm)
    × (emptied c.base.optional_parameters ≡ some [])
    × (c.message.without_data_coding ≡ false)
IsTyped (Pdu.deliver_sm_resp c) =
    (c.base.header.command_id ≡ CommandId.deliver_sm_resp)
    × (emptied c.base.optional_parameters ≡ some [])
IsTyped (Pdu.enquire_link c) =
    (c.base.header.command_id ≡ CommandId.enquire_link)
    × (emptied c.base.optional_parameters ≡ some [])
IsTyped (Pdu.enquire_link_resp c) =
    (c.base.header.command_id ≡ CommandId.enquire_link_resp)
    × (emptied c.base.optional_parameters ≡ some [])
IsTyped (Pdu.generic_nack c) =
    (c.base.header.command_id ≡ CommandId.generic_nack)
    × (emptied c.base.optional_parameters ≡ some [])
IsTyped (Pdu.outbind c) =
    (c.base.header.command_id ≡ CommandId.outbind) × (emptied c.base.optional_parameters ≡ some [])
IsTyped (Pdu.query_sm c) =
    (c.base.header.command_id ≡ CommandId.query_sm) × (emptied c.base.optional_parameters ≡ none)
IsTyped (Pdu.query_sm_resp c) =
    (c.base.header.command_id ≡ CommandId.query_sm_resp)
    × (emptied c.base.optional_parameters ≡ some [])
IsTyped (Pdu.replace_sm c) =
    (c.base.header.command_id ≡ CommandId.replace_sm)
    × (emptied c.base.optional_parameters ≡ some [])
    × (c.message.without_data_coding ≡ true)
IsTyped (Pdu.replace_sm_resp c) =
    (c.base.header.command_id ≡ CommandId.replace_sm_resp)
    × (emptied c.base.optional_parameters ≡ some [])
IsTyped (Pdu.submit_multi c) =
    (c.base.header.command_id ≡ CommandId.submit_multi)
    × (emptied c.base.optional_parameters ≡ some [])
    × (c.message.without_data_coding ≡ false)
IsTyped (Pdu.submit_multi_resp c) =
    (c.base.header.command_id ≡ CommandId.submit_multi_resp)
    × (emptied c.base.optional_parameters ≡ some [])
IsTyped (Pdu.submit_sm c) =
    (c.base.header.command_id ≡ CommandId.submit_sm)
    × (emptied c.base.optional_parameters ≡ some [])
    × (c.message.without_data_coding ≡ false)
IsTyped (Pdu.submit_sm_resp c) =
    (c.base.header.command_id ≡ CommandId.submit_sm_resp)
    × (emptied c.base.optional_parameters ≡ some [])
IsTyped (Pdu.unbind c) =
    (c.base.header.command_id ≡ CommandId.unbind) × (emptied c.base.optional_parameters ≡ some [])
IsTyped (Pdu.unbind_resp c) =
    (c.base.header.command_id ≡ CommandId.unbind_resp)
    × (emptied c.base.optional_parameters ≡ some [])

-- The factory's answer, with the state of the package variables behind it.
abbrev pub Creates : Globals → Pdu → Type 0
Creates g p =
    (p0 : Pdu) × (g' : Globals) × (create_pdu_from_cmd_id g (base_of p).header.command_id
      ≡ (inr p0, g'))
    × Fresh p0 p
