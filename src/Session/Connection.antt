-- ===== src/Session/Connection.antt =====
-- Binding to an SMSC, connect.go, over Connection of connection.go.
pub mod Waiting
pub mod Binding
use gosmpp.Prelude.{
  ℕ, zero, suc, Bool, true, false, List, [], ◌∷◌, Option, none, some, ◌==◌, if◌then◌else◌, length,
  take,
}
use gosmpp.Outcome.{Bytes, Outcome, ok, err, out_of_fuel}
use gosmpp.Buffer.Safety.{is_returned}
use gosmpp.Globals.{Globals}
use gosmpp.AddressRange.{AddressRange, zero_address_range}
use gosmpp.Pdu.BindRequest
use gosmpp.Pdu.BindRequest.{BindRequest, BindingType, transmitter, receiver, transceiver}
use gosmpp.Pdu.BindResp.{BindResp}
use gosmpp.Packet.{Pdu}
use gosmpp.Wire.{marshal}
use gosmpp.Parse.{parse}
use gosmpp.Session.Failure.{Failure, bind_error, codec}

pub record Auth : Type 0 where
  pub smsc : Bytes
  pub system_id : Bytes
  pub password : Bytes
  pub system_type : Bytes

unfoldable pub new_bind_request :
    Globals → Auth → BindingType → AddressRange → BindRequest × Globals
new_bind_request g s binding_type address_range =
    let (bind_req, g') = BindRequest.new binding_type g in
    (
      record bind_req {
        system_id = s.system_id;
        password = s.password;
        system_type = s.system_type;
        address_range = address_range;
      },
      g',
    )

-- Connection: the system_id, and what the peer has still to send before it ends the stream.
pub record Connection : Type 0 where
  pub system_id : Bytes
  pub stream : Bytes

-- NewConnection
abbrev pub new_connection : Bytes → Connection
new_connection stream = record { system_id = []; stream = stream }

-- The peer: whether the dialer reaches it, the result of net.Conn.Write, and the bytes it sends.
pub record Peer : Type 0 where
  pub dialled : Option Failure
  pub wrote : ℕ × Option Failure
  pub stream : Bytes

-- The results of `connect`, whether it closed the connection, and the bytes that went out.
pub record Connected : Type 0 where
  pub conn : Option Connection
  pub err : Option Failure
  pub closed : Bool
  pub sent : Bytes
  pub globals : Globals

abbrev pub Awaited : Type 0
Awaited = Outcome BindResp × Globals

-- The type assertion `p.(*pdu.BindResp)`.
abbrev pub as_bind_resp : Pdu → Option BindResp
as_bind_resp (Pdu.bind_resp c) = some c
as_bind_resp p = none

-- One round: anything but a bind_resp is dropped.
unfoldable pub await_pdu : Option BindResp → Globals → Bytes → (Globals → Bytes → Awaited) → Awaited
await_pdu (some resp) g s rest = (ok resp s, g)
await_pdu none g s rest = rest g s

unfoldable pub await_next : Outcome Pdu × Globals → (Globals → Bytes → Awaited) → Awaited
unfolding await_pdu
await_next (err e s, g) rest = (err e s, g)
await_next (ok p s, g) rest = await_pdu (as_bind_resp p) g s rest

-- The loop that waits for the bind_resp, on fuel.
unfoldable pub await : ℕ → Globals → Bytes → Awaited
unfolding await_next
await zero g s = (err out_of_fuel s, g)
await (suc n) g s = await_next (parse g s) (await n)

-- After the loop: a panic of Parse leaves the connection as it is.
unfoldable pub answered : Connection → Bytes → Awaited → Connected
answered c sent (err e s, g) = record {
  conn = some (record c { stream = s });
  err = some (codec e);
  closed = is_returned e;
  sent = sent;
  globals = g;
}
answered c sent (ok resp s, g) =
    if resp.base.header.command_status == 0
    then record {
      conn = some (record c { system_id = resp.system_id; stream = s });
      err = none;
      closed = false;
      sent = sent;
      globals = g;
    }
    else record {
      conn = some (record c { stream = s });
      err = some (bind_error resp.base.header.command_status);
      closed = true;
      sent = sent;
      globals = g;
    }

-- After the bind request is written.
unfoldable pub requested : Globals → Connection → Bytes → Option Failure → Connected
unfolding answered
requested g c sent (some e) = record {
  conn = some c;
  err = some e;
  closed = true;
  sent = sent;
  globals = g;
}
requested g c sent none = answered c sent (await (suc (length c.stream)) g c.stream)

unfoldable pub dialled : Globals → Peer → BindRequest → Option Failure → Connected
unfolding requested
dialled g peer bind_req (some e) = record {
  conn = none;
  err = some e;
  closed = false;
  sent = [];
  globals = g;
}
dialled g peer bind_req none =
    requested g (new_connection peer.stream)
      (take peer.wrote.0 (marshal (Pdu.bind_request bind_req)).1) peer.wrote.1

unfoldable pub connect : Globals → Peer → BindRequest → Connected
unfolding dialled
connect g peer bind_req = dialled g peer bind_req peer.dialled

-- connector, without its dialer
pub record Connector : Type 0 where
  pub auth : Auth
  pub binding_type : BindingType
  pub address_range : AddressRange

abbrev pub get_bind_type : Connector → BindingType
get_bind_type c = c.binding_type

-- Connector.Connect
unfoldable pub connect_with : Globals → Peer → Connector → Connected
connect_with g peer c =
    let (bind_req, g') = new_bind_request g c.auth c.binding_type c.address_range in
    connect g' peer bind_req

abbrev pub ConnectorOption : Type 0
ConnectorOption = Connector → Connector

unfoldable pub with_address_range : AddressRange → ConnectorOption
with_address_range address_range c = record c { address_range = address_range }

apply : List ConnectorOption → Connector → Connector
apply [] c = c
apply (opt ∷ opts) c = apply opts (opt c)

-- TXConnector
unfoldable pub tx_connector : Auth → Connector
tx_connector auth = record {
  auth = auth;
  binding_type = transmitter;
  address_range = zero_address_range;
}

-- RXConnector
unfoldable pub rx_connector : Auth → List ConnectorOption → Connector
unfolding apply
rx_connector auth opts =
    apply opts (record { auth = auth; binding_type = receiver; address_range = zero_address_range })

-- TRXConnector
unfoldable pub trx_connector : Auth → List ConnectorOption → Connector
unfolding apply
trx_connector auth opts =
    apply opts
      (record { auth = auth; binding_type = transceiver; address_range = zero_address_range })
