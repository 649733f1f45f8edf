-- ===== src/Examples/Sessions.antt =====
-- A bind as transceiver, and sessions that rebind over it.
use gosmpp.Prelude.{
  ◌≡◌, ◌↔◌, refl, ap, arith, Bool, true, false, inl, inr, [], ◌∷◌, ◌++◌, none, some, length,
}
use gosmpp.Globals.{Globals}
use gosmpp.CommandId
use gosmpp.Base.{marshal_options, marshal_entries}
use gosmpp.Base.RoundTrip.{IsFrame, framed, framed-length, length-wire}
use gosmpp.Buffer.{write_c_string}
use gosmpp.AddressRange.{zero_address_range}
use gosmpp.Pdu.BindRequest.{BindRequest, transceiver}
use gosmpp.Pdu.BindResp
use gosmpp.Pdu.BindResp.{BindResp}
use gosmpp.Packet.{Pdu}
use gosmpp.Wire.{marshal}
use gosmpp.Examples.Data.{globals, packet, header}
use gosmpp.Examples.Frames.{too_short}
use gosmpp.Examples.Windows.{store, windowed, outside, bound, readable}
use gosmpp.Session.Failure.{network}
use gosmpp.Session.Duration.{pos}
use gosmpp.Session.Store.Concrete.{Table, empty_table}
use gosmpp.Session.Transmitter.Order.{wires}
use gosmpp.Session.Receiver.Stream.{IsReadable}
use gosmpp.Session.Connection.{
  Auth, Peer, Connected, Connector, await, connect, connect_with, new_bind_request,
}
use gosmpp.Session.Connection.Waiting.{Awaits, await-Awaits}
use gosmpp.Session.Connection.Binding.{Listens, Settled, connect-accepted, connect-Settled}
use gosmpp.Session.Transceiver
use gosmpp.Session.Rebinding.{Session, Attempt, new_session, rebind}
use gosmpp.Session.Rebinding.Checks.{IsValid, new_session_iff}
use gosmpp.Session.Rebinding.Recovery.{Leaks, rebind-Leaks}

await-Awaits_example : Awaits globals too_short (await 19 globals too_short)
await-Awaits_example = await-Awaits 19 globals too_short (omega arith)

abbrev auth : Auth
auth = record { smsc = []; system_id = 65 ∷ []; password = 66 ∷ []; system_type = [] }

-- The bind_resp of a peer that accepts.
abbrev accepting : BindResp
accepting = record {
  base = record { header = header CommandId.bind_transceiver_resp; optional_parameters = some [] };
  system_id = 83 ∷ 77 ∷ [];
}

accepting_size : length (BindResp.write_body accepting) ≡ 3
unfolding BindResp.write_body write_c_string
accepting_size = refl

no_options : length (marshal_options accepting.base.optional_parameters) ≡ 0
unfolding marshal_options marshal_entries
no_options = refl

accepting-IsFrame : IsFrame accepting.base (BindResp.write_body accepting)
accepting-IsFrame = record {
  id_fits = omega arith;
  status_fits = omega arith;
  sequence_fits = omega arith;
  options_fit = tt;
  length_fits = omega (arith, accepting_size, no_options);
}

length-accepting :
    length (marshal (Pdu.bind_resp accepting)).1
    ≡ (framed accepting.base (BindResp.write_body accepting)).header.command_length
unfolding marshal BindResp.marshal
length-accepting = length-wire accepting.base (BindResp.write_body accepting) accepting-IsFrame

accepting-IsReadable : IsReadable (Pdu.bind_resp accepting)
accepting-IsReadable = record {
  typed = (inr (inl refl), refl);
  sendable = record {
    frame = accepting-IsFrame;
    system_id_fits = (omega arith, (omega arith, tt));
    system_id_read = refl;
  };
  short = omega (
    arith,
    length-accepting,
    framed-length accepting.base (BindResp.write_body accepting) accepting-IsFrame,
    accepting_size,
    no_options,
  );
}

-- It sends another PDU before its answer.
abbrev answering : BindRequest → Peer
answering bind_req = record {
  dialled = none;
  wrote = (length (marshal (Pdu.bind_request bind_req)).1, none);
  stream = wires (packet ∷ []) ++ ((marshal (Pdu.bind_resp accepting)).1 ++ []);
}

abbrev request : Globals → BindRequest
request g = (new_bind_request g auth transceiver zero_address_range).0

listens : (bind_req : BindRequest) → Listens (answering bind_req) bind_req
listens bind_req = record { reached = refl; whole = refl }

connect-accepted_example :
    (g' : Globals) × (connect globals (answering (request globals)) (request globals) ≡ record {
      conn = some (record { system_id = accepting.system_id; stream = [] });
      err = none;
      closed = false;
      sent = (marshal (Pdu.bind_request (request globals))).1;
      globals = g';
    })
connect-accepted_example =
    connect-accepted globals (answering (request globals)) (request globals) (packet ∷ []) accepting
      [] (listens (request globals)) refl (readable, tt) (refl, tt) accepting-IsReadable refl

abbrev silent : Peer
silent = record { dialled = none; wrote = (30, none); stream = too_short }

connect-Settled_example : Settled (connect globals silent (request globals))
connect-Settled_example = connect-Settled globals silent (request globals) refl

abbrev connector : Connector
connector = record { auth = auth; binding_type = transceiver; address_range = zero_address_range }

abbrev session : Session Table
session = record {
  connector = connector;
  original_on_closed = true;
  settings = windowed;
  rebinding_interval = pos 5;
  trx = bound;
  alive = true;
  rebinding = false;
  events = [];
}

new_session_iff_example :
    ((new_session globals
        (answering (request globals))
        connector
        windowed
        (pos 5)
        empty_table
        []).err
      ≡ none)
    ↔ (IsValid windowed
        × ((connect_with globals (answering (request globals)) connector).err ≡ none))
new_session_iff_example =
    new_session_iff globals (answering (request globals)) connector windowed (pos 5) empty_table []

-- Both sides hold.
windowed-IsValid : IsValid windowed
windowed-IsValid = record {
  reads = (19, refl);
  outlasts = (9, refl);
  tracks = record { has_places = omega arith; has_time = λ e. cc; has_timer = λ expires. λ e. cc };
}

binds : (g : Globals) → (connect_with g (answering (request g)) connector).err ≡ none
unfolding connect_with
binds g =
    let g' = (new_bind_request g auth transceiver zero_address_range).1 in
    let (_, all) =
      connect-accepted g' (answering (request g)) (request g) (packet ∷ []) accepting []
        (listens (request g)) refl (readable, tt) (refl, tt) accepting-IsReadable refl in
    ap (λ (c : Connected). c.err) all

-- The package variables after the transceiver is closed, and after a bind that does not reach the peer.
abbrev closed_globals : Globals
closed_globals = (Transceiver.close store session.settings outside session.trx).0.globals

abbrev unreachable : Attempt
unreachable = record {
  closed_before = false;
  peer = record { dialled = some (network true); wrote = (0, none); stream = [] };
  closed_meanwhile = false;
}

abbrev tried_globals : Globals
tried_globals = (connect_with closed_globals unreachable.peer connector).globals

abbrev reachable : Globals → Bool → Attempt
reachable g closed = record {
  closed_before = false;
  peer = answering (request g);
  closed_meanwhile = closed;
}

rebind-Leaks_example :
    Leaks store outside (rebind store outside (reachable closed_globals true ∷ []) session)
rebind-Leaks_example =
    rebind-Leaks store outside session [] (reachable closed_globals true) refl refl refl refl
      (binds closed_globals)
