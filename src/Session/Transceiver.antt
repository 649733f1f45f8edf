-- ===== src/Session/Transceiver.antt =====
-- The two halves of a connection together, transceivable.go: newTransceivable, Close, GetWindowSize and
-- windowCleanup.
pub mod Closing
pub mod Ends
pub mod Expiry
use gosmpp.Prelude.{
  ℕ, zero, suc, ◌-◌, Bool, true, false, not, List, [], ◌∷◌, ◌++◌, Option, none, some, if◌then◌else◌,
}
use gosmpp.Outcome.{Bytes}
use gosmpp.Globals.{Globals}
use gosmpp.Packet.{Pdu, get_sequence_number}
use gosmpp.Pdu.Unbind
use gosmpp.Session.Failure.{Failure, window_not_configured}
use gosmpp.Session.Duration.{pos, at_most}
use gosmpp.Session.Settings.{
  Settings, WindowedRequestTracking, State, Event, on_closed, on_expired_pdu_request,
  connection_issue, invalid_streaming, unbind_closing, explicit_closing, stopping_process_only,
  closes_conn,
}
use gosmpp.Session.Store.{Request, RequestStore}
use gosmpp.Session.Transmitter
use gosmpp.Session.Transmitter.{CloseEnv}
use gosmpp.Session.Receiver

-- The settings that newTransceivable gives to the transmitter. Its OnClosed is `out_on_closed`.
unfoldable pub transmitter_settings : Settings → Settings
transmitter_settings settings = record {
  read_timeout = pos 0;
  write_timeout = settings.write_timeout;
  enquire_link = settings.enquire_link;
  on_pdu = false;
  on_all_pdu = none;
  on_receiving_error = false;
  on_submit_error = settings.on_submit_error;
  on_rebinding_error = false;
  on_closed = true;
  on_rebind = false;
  windowed_request_tracking = settings.windowed_request_tracking;
}

-- And to the receiver, whose OnClosed is `in_on_closed`.
unfoldable pub receiver_settings : Settings → Settings
receiver_settings settings = record {
  read_timeout = settings.read_timeout;
  write_timeout = pos 0;
  enquire_link = pos 0;
  on_pdu = settings.on_pdu;
  on_all_pdu = settings.on_all_pdu;
  on_receiving_error = settings.on_receiving_error;
  on_submit_error = false;
  on_rebinding_error = false;
  on_closed = true;
  on_rebind = false;
  windowed_request_tracking = settings.windowed_request_tracking;
}

-- The aliveState of the transceiver and of its halves, whether the connection is open, the store, the
-- package variables, the bytes that closing sent, and the callbacks of the user that were called.
pub record Transceiver {ℓ} (M : Type ℓ) : Type ℓ where
  pub alive : Bool
  pub out_alive : Bool
  pub in_alive : Bool
  pub conn_open : Bool
  pub store : M
  pub globals : Globals
  pub bytes : Bytes
  pub events : List Event

-- newTransceivable
unfoldable pub new_transceivable {ℓ} : {M : Type ℓ} → Globals → M → Transceiver M
new_transceivable g s = record {
  alive = true;
  out_alive = true;
  in_alive = true;
  conn_open = true;
  store = s;
  globals = g;
  bytes = [];
  events = [];
}

-- What happens outside while the halves are closed: during the close of the transmitter, and the
-- results of net.Conn.Close for the receiver and for the transceiver.
pub record Outside : Type 0 where
  pub out_close : CloseEnv
  pub in_conn_closed : Option Failure
  pub conn_closed : Option Failure

-- The calls of OnClosed.
abbrev pub as_closed : Event → Option State
as_closed (on_closed state) = some state
as_closed e = none

pub data Half : Type 0 where
  output input : Half

module _ {ℓ} {M : Type ℓ} (r : RequestStore M) (settings : Settings) (env : Outside) where
  -- t.settings.OnClosed
  unfoldable pub tell : State → Transceiver M → Transceiver M
  tell state t =
      if settings.on_closed then record t { events = t.events ++ (on_closed state ∷ []) } else t

  -- The callbacks that closing a half calls: OnClosed is the transceiver's own, the others the user's.
  unfoldable pub notified :
      (State → Transceiver M → Transceiver M) → Option State → Event → Transceiver M → Transceiver M
  notified f (some state) e t = f state t
  notified f none e t = record t { events = t.events ++ (e ∷ []) }

  unfoldable pub notify :
      (State → Transceiver M → Transceiver M) → List Event → Transceiver M → Transceiver M
  unfolding notified
  notify f [] t = t
  notify f (e ∷ es) t = notify f es (notified f (as_closed e) e t)

  unfoldable pub close_out :
      (State → Transceiver M → Transceiver M) → State → Transceiver M → Transceiver M
  unfolding notify
  close_out f state t =
      let closed =
        Transmitter.close r (transmitter_settings settings) env.out_close t.globals state t.store in
      if t.out_alive
      then notify f closed.events (record t {
        out_alive = false;
        conn_open = if closes_conn state then false else t.conn_open;
        store = closed.store;
        globals = (Unbind.new t.globals).1;
        bytes = t.bytes ++ closed.bytes;
      })
      else t

  unfoldable pub close_in :
      (State → Transceiver M → Transceiver M) → State → Transceiver M → Transceiver M
  unfolding notify
  close_in f state t =
      let closed = Receiver.close (receiver_settings settings) env.in_conn_closed state in
      if t.in_alive
      then notify f closed.events
          (record t { in_alive = false; conn_open = if closed.closes then false else t.conn_open })
      else t

  -- The OnClosed of the transmitter.
  unfoldable pub out_on_closed :
      (State → Transceiver M → Transceiver M) → State → Transceiver M → Transceiver M
  unfolding tell
  out_on_closed close_input connection_issue t =
      tell connection_issue (close_input explicit_closing t)
  out_on_closed close_input state t = t

  -- The OnClosed of the receiver.
  unfoldable pub in_on_closed :
      (State → Transceiver M → Transceiver M) → State → Transceiver M → Transceiver M
  unfolding tell
  in_on_closed close_output invalid_streaming t =
      tell invalid_streaming (close_output explicit_closing t)
  in_on_closed close_output unbind_closing t = tell unbind_closing (close_output explicit_closing t)
  in_on_closed close_output state t = t

  -- t.out.close and t.in.close, which call each other through OnClosed, on fuel.
  unfoldable pub close_half : ℕ → Half → State → Transceiver M → Transceiver M
  unfolding close_out close_in out_on_closed in_on_closed
  close_half zero half state t = t
  close_half (suc n) output state t = close_out (out_on_closed (close_half n input)) state t
  close_half (suc n) input state t = close_in (in_on_closed (close_half n output)) state t

  -- t.Close
  unfoldable pub close : Transceiver M → Transceiver M × Option Failure
  unfolding close_half tell
  close t =
      if t.alive
      then (
        tell explicit_closing
            (record (close_half 2 input stopping_process_only
              (close_half 2 output stopping_process_only (record t { alive = false }))) {
                conn_open = false;
              }),
        env.conn_closed,
      )
      else (t, none)

  -- GetWindowSize
  unfoldable pub get_window_size : Bool → Transceiver M → ℕ × Option Failure
  get_window_size ended t = window_size settings.windowed_request_tracking
    where
      window_size : Option WindowedRequestTracking → ℕ × Option Failure
      window_size none = (0, some window_not_configured)
      window_size (some w) = r.length ended t.store

  -- `time.Since(request.TimeSent) > PduExpireTimeOut`, by the monotonic clock.
  abbrev pub is_expired : WindowedRequestTracking → ℕ → Request → Bool
  is_expired w now q = not (at_most (pos (now - q.time_sent)) w.pdu_expire_time_out)

  close_if : Bool → Transceiver M → Transceiver M
  unfolding close
  close_if true t = (close t).0
  close_if false t = t

  hand_back : Option (Pdu → Bool) → Request → Transceiver M → Transceiver M
  unfolding close_if
  hand_back none q t = t
  hand_back (some f) q t =
      close_if (f q.pdu) (record t { events = t.events ++ (on_expired_pdu_request q.pdu ∷ []) })

  unfoldable pub expire_one :
      WindowedRequestTracking → ℕ → (ℕ → Bool) → Request → Transceiver M → Transceiver M
  unfolding hand_back
  expire_one w now ended q t =
      let seq = get_sequence_number q.pdu in
      if is_expired w now q
      then hand_back w.on_expired_pdu_request q
          (record t { store = (r.delete (ended seq) seq t.store).0 })
      else t

  -- The requests of the list that have expired are deleted and handed back.
  unfoldable pub expire :
      WindowedRequestTracking → ℕ → (ℕ → Bool) → List Request → Transceiver M → Transceiver M
  unfolding expire_one
  expire w now ended [] t = t
  expire w now ended (q ∷ l) t = expire w now ended l (expire_one w now ended q t)

  -- A tick of windowCleanup.
  unfoldable pub window_cleanup :
      WindowedRequestTracking → ℕ → Bool → (ℕ → Bool) → Transceiver M → Transceiver M
  unfolding expire
  window_cleanup w now list_ended delete_ended t =
      expire w now delete_ended (r.list list_ended t.store) t
