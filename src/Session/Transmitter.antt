-- ===== src/Session/Transmitter.antt =====
-- The transmitting half of a connection, transmittable.go: write, check, the loops and close.
pub mod Window
pub mod Order
use gosmpp.Prelude.{
  ℕ, Bool, true, false, ◌&&◌, List, [], ◌∷◌, ◌++◌, Option, none, some, ◌==◌, ltb, if◌then◌else◌,
  take,
}
use gosmpp.Outcome.{Bytes}
use gosmpp.Packet.{Pdu, get_sequence_number}
use gosmpp.Wire.{marshal}
use gosmpp.Response.{can_response}
use gosmpp.Globals.{Globals}
use gosmpp.Pdu.EnquireLink
use gosmpp.Pdu.Unbind
use gosmpp.Session.Failure.{
  Failure, windows_full, is_windows_full, as_net_error, connection_closing,
}
use gosmpp.Session.Duration.{is_positive}
use gosmpp.Session.Store.{Request, RequestStore}
use gosmpp.Session.Settings.{
  Settings, WindowedRequestTracking, State, Event, on_submit_error, start_closing, connection_issue,
  closes_conn, on_closed, on_close_pdu_request,
}

-- isAllowPDU: the requests that take a place in the window.
unfoldable pub is_allow_pdu : Pdu → Bool
unfolding can_response
is_allow_pdu (Pdu.bind_request c) = false
is_allow_pdu (Pdu.unbind c) = false
is_allow_pdu p = can_response p

-- What happens outside during a write: the result of SetWriteTimeout, whether the context of the store
-- has ended at each access, the result of net.Conn.Write, and the time.
pub record WriteEnv : Type 0 where
  pub timeout_set : Option Failure
  pub length_ended : Bool
  pub wrote : ℕ × Option Failure
  pub set_ended : Bool
  pub now : ℕ

-- The results of `write`, the PDU as it leaves it (Marshal stores the command length in it), the store
-- after it, and the bytes that went out.
pub record Written {ℓ} (M : Type ℓ) : Type ℓ where
  pub pdu : Pdu
  pub n : ℕ
  pub err : Option Failure
  pub store : M
  pub bytes : Bytes

module _ {ℓ} {M : Type ℓ} (r : RequestStore M) where
  -- Connection.WritePDU
  unfoldable pub write_pdu : WriteEnv → M → Pdu → Written M
  write_pdu env s p = record {
    pdu = (marshal p).0;
    n = env.wrote.0;
    err = env.wrote.1;
    store = s;
    bytes = take env.wrote.0 (marshal p).1;
  }

  keep : Written M → M × Option Failure → Written M
  keep w (s, none) = record w { store = s }
  keep w (s, some e) = record w { n = 0; err = some e; store = s }

  -- The PDU goes into the window with the command length that Marshal stored in it.
  remember : WriteEnv → Pdu → Written M → Option Failure → Written M
  unfolding keep
  remember env p w (some e) = record w { n = 0 }
  remember env p w none =
      keep w (r.set env.set_ended (record { pdu = (marshal p).0; time_sent = env.now }) w.store)

  write_tracked : ℕ → WriteEnv → M → Pdu → ℕ × Option Failure → Written M
  unfolding write_pdu remember
  write_tracked max_window_size env s p (length, some e) = record {
    pdu = p;
    n = 0;
    err = some e;
    store = s;
    bytes = [];
  }
  write_tracked max_window_size env s p (length, none) =
      if ltb length max_window_size
      then remember env p (write_pdu env s p) env.wrote.1
      else record { pdu = p; n = 0; err = some windows_full; store = s; bytes = [] }

  -- MaxWindowSize, and 0 where WindowedRequestTracking is nil.
  abbrev pub window_size : Option WindowedRequestTracking → ℕ
  window_size none = 0
  window_size (some w) = w.max_window_size

  write_now : Settings → WriteEnv → M → Pdu → Option Failure → Written M
  unfolding write_tracked is_allow_pdu
  write_now settings env s p (some e) = record {
    pdu = p;
    n = 0;
    err = some e;
    store = s;
    bytes = [];
  }
  write_now settings env s p none =
      let max_window_size = window_size settings.windowed_request_tracking in
      if ltb 0 max_window_size && is_allow_pdu p
      then write_tracked max_window_size env s p (r.length env.length_ended s)
      else write_pdu env s p

  unfoldable pub write : Settings → WriteEnv → M → Pdu → Written M
  unfolding write_now
  write settings env s p =
      write_now settings env s p
        (if is_positive settings.write_timeout then env.timeout_set else none)

-- Whether an error of `write` closes the connection.
unfoldable pub is_fatal : ℕ → Failure → Bool
is_fatal n e =
    if n == 0 then (if is_windows_full e then false else timed_out (as_net_error e)) else true
  where
    timed_out : Option Bool → Bool
    timed_out none = true
    timed_out (some timeout) = timeout

unfoldable pub check : Settings → Pdu → ℕ → Option Failure → Bool × List Event
unfolding is_fatal
check settings p n none = (false, [])
check settings p n (some e) = (
  is_fatal n e,
  (if settings.on_submit_error then on_submit_error p e ∷ [] else [])
      ++ (if is_fatal n e then start_closing connection_issue ∷ [] else []),
)

-- What the loop finds next: a PDU from the channel, which may be nil, or a tick of the enquire-link
-- timer. The list ends where the channel is closed.
pub data Input : Type 0 where
  received : Option Pdu → Input
  ticked : Input

-- `stopped`: the loop returned on an error, and only drains the channel from there on.
pub record Run {ℓ} (M : Type ℓ) : Type ℓ where
  pub store : M
  pub globals : Globals
  pub events : List Event
  pub bytes : Bytes
  pub stopped : Bool

module _ {ℓ} {M : Type ℓ} (r : RequestStore M) (settings : Settings) where
  -- After a write: stop, or go on with what `rest` does.
  go_on : Globals → Written M → Bool × List Event → Run M → Run M
  go_on g w (true, events) rest = record {
    store = w.store;
    globals = g;
    events = events;
    bytes = w.bytes;
    stopped = true;
  }
  go_on g w (false, events) rest = record rest {
    events = events ++ rest.events;
    bytes = w.bytes ++ rest.bytes;
  }

  -- loop and loopWithEnquireLink; the first has no ticks.
  unfoldable pub loop : Globals → M → List (Input × WriteEnv) → Run M
  unfolding go_on
  loop g s [] = record { store = s; globals = g; events = []; bytes = []; stopped = false }
  loop g s ((received none, env) ∷ inputs) = loop g s inputs
  loop g s ((received (some p), env) ∷ inputs) =
      let w = write r settings env s p in
      go_on g w (check settings w.pdu w.n w.err) (loop g w.store inputs)
  loop g s ((ticked, env) ∷ inputs) =
      let (c, g') = EnquireLink.new g in
      let w = write r settings env s (Pdu.enquire_link c) in
      go_on g' w (check settings w.pdu w.n w.err) (loop g' w.store inputs)

-- Submit: the queue of the channel with the PDU at its end, while the transmitter is alive.
unfoldable pub submit : Bool → Option Pdu → List (Option Pdu) → List (Option Pdu) × Option Failure
submit alive p queue = if alive then (queue ++ (p ∷ []), none) else (queue, some connection_closing)

-- What `close` leaves: the store, what it did, and the error it returns.
pub record Closed {ℓ} (M : Type ℓ) : Type ℓ where
  pub store : M
  pub events : List Event
  pub bytes : Bytes
  pub err : Option Failure

-- What happens outside during `close`: the write of the unbind, the result of net.Conn.Close, and
-- whether the context of the store has ended at each access.
pub record CloseEnv : Type 0 where
  pub unbind : WriteEnv
  pub conn_closed : Option Failure
  pub length_ended : Bool
  pub list_ended : Bool
  pub delete_ended : ℕ → Bool

module _ {ℓ} {M : Type ℓ} (r : RequestStore M) (settings : Settings) where
  unfoldable pub notice : WindowedRequestTracking → Request → List Event
  notice w q = if w.on_close_pdu_request then on_close_pdu_request q.pdu ∷ [] else []

  unfoldable pub after_delete :
      List Event
      → M × Option Failure
      → (M → M × List Event × Option Failure)
      → M × List Event × Option Failure
  after_delete events (s, some e) rest = (s, events, some e)
  after_delete events (s, none) rest =
      let (s', events', err) = rest s in (s', events ++ events', err)

  -- `for _, request := range List`: each request that is left is handed back and deleted.
  unfoldable pub delete_requests :
      WindowedRequestTracking → (ℕ → Bool) → List Request → M → M × List Event × Option Failure
  unfolding notice after_delete
  delete_requests w ended [] s = (s, [], none)
  delete_requests w ended (q ∷ l) s =
      let seq = get_sequence_number q.pdu in
      after_delete (notice w q) (r.delete (ended seq) seq s) λ s'. delete_requests w ended l s'

  unfoldable pub drain_if :
      WindowedRequestTracking → CloseEnv → M → ℕ × Option Failure → M × List Event × Option Failure
  drain_if w env s (size, some e) = (s, [], some e)
  drain_if w env s (size, none) =
      if ltb 0 size
      then delete_requests w env.delete_ended (r.list env.list_ended s) s
      else (s, [], none)

  unfoldable pub drain_window :
      Option WindowedRequestTracking
      → CloseEnv
      → M
      → Option Failure
      → M × List Event × Option Failure
  unfolding drain_if
  drain_window none env s err = (s, [], err)
  drain_window (some w) env s err = drain_if w env s (r.length env.length_ended s)

  -- `close`, for the caller that its compare-and-swap of aliveState lets in.
  unfoldable pub close : CloseEnv → Globals → State → M → Closed M
  unfolding drain_window
  close env g state s =
      let (c, g') = Unbind.new g in
      let w = write r settings env.unbind s (Pdu.unbind c) in
      let err = if closes_conn state then env.conn_closed else none in
      let (s', events, err') = drain_window settings.windowed_request_tracking env w.store err in
      record {
        store = s';
        events = (if settings.on_closed then on_closed state ∷ [] else []) ++ events;
        bytes = w.bytes;
        err = err';
      }
