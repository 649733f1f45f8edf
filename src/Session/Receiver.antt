-- ===== src/Session/Receiver.antt =====
-- The receiving half of a connection, receivable.go: the handlers of a PDU and the read loop.
pub mod Replies
pub mod Matching
pub mod Stream
use gosmpp.Prelude.{Bool, true, false, List, [], ◌∷◌, ◌++◌, Option, none, some, if◌then◌else◌}
use gosmpp.Outcome.{Bytes, Error, Outcome, ok, err}
use gosmpp.Buffer.Safety.{is_returned}
use gosmpp.Globals.{Globals}
use gosmpp.Packet.{Pdu, get_sequence_number}
use gosmpp.Response.{can_response, get_response}
use gosmpp.Parse.{parse}
use gosmpp.Session.Failure.{Failure, codec}
use gosmpp.Session.Store.{Request, RequestStore}
use gosmpp.Session.Settings.{
  Settings, WindowedRequestTracking, AllPduCallback, State, Event, respond, on_pdu, on_all_pdu,
  on_received_pdu_request, on_unexpected_pdu_response, on_expected_pdu_response, on_receiving_error,
  on_closed, start_closing, closes_conn, crash, unbind_closing, invalid_streaming,
}

-- What a handler did, whether it asks to close, and the package variables after it.
pub record Handled : Type 0 where
  pub globals : Globals
  pub events : List Event
  pub closing : Bool

-- `settings.response(p.GetResponse())`
answer : Globals → Pdu → (Option Pdu → List Event) → Bool → Handled
answer g p events closing =
    let (r, g') = get_response g p in record { globals = g'; events = events r; closing = closing }

unfoldable pub handle_or_close : Settings → Globals → Pdu → Handled
unfolding answer can_response
handle_or_close settings g (Pdu.enquire_link c) =
    answer g (Pdu.enquire_link c) (λ r. respond r ∷ []) false
handle_or_close settings g (Pdu.unbind c) =
    answer g (Pdu.unbind c) (λ r. respond r ∷ start_closing unbind_closing ∷ []) true
handle_or_close settings g p =
    let notice = λ (responded : Bool). if settings.on_pdu then on_pdu p responded ∷ [] else [] in
    if can_response p
    then answer g p (λ r. respond r ∷ notice true) false
    else record { globals = g; events = notice false; closing = false }

-- A callback is called, its response is sent, and it may ask to close the bind.
called : Globals → Event → Option Pdu × Bool → Handled
called g event (r, close_bind) = record {
  globals = g;
  events = event ∷ respond r ∷ (if close_bind then start_closing unbind_closing ∷ [] else []);
  closing = close_bind;
}

call_back : Globals → Event → Option AllPduCallback → Pdu → Handled
unfolding called
call_back g event none p = record { globals = g; events = []; closing = false }
call_back g event (some f) p = called g event (f p)

unfoldable pub handle_all_pdu : Settings → Globals → Pdu → Handled
unfolding call_back
handle_all_pdu settings g p = call_back g (on_all_pdu p) settings.on_all_pdu p

-- The responses that are looked up in the window.
unfoldable pub is_window_response : Pdu → Bool
is_window_response (Pdu.cancel_sm_resp c) = true
is_window_response (Pdu.data_sm_resp c) = true
is_window_response (Pdu.deliver_sm_resp c) = true
is_window_response (Pdu.enquire_link_resp c) = true
is_window_response (Pdu.query_sm_resp c) = true
is_window_response (Pdu.replace_sm_resp c) = true
is_window_response (Pdu.submit_multi_resp c) = true
is_window_response (Pdu.submit_sm_resp c) = true
is_window_response p = false

-- What happens outside while a PDU is read and handled: whether the receiver was told to stop, the
-- result of SetReadTimeout, and whether the context of the store has ended at each access.
pub record ReadEnv : Type 0 where
  pub cancelled : Bool
  pub deadline : Option Failure
  pub get_ended : Bool
  pub delete_ended : Bool

module _ {ℓ} {M : Type ℓ} (r : RequestStore M) where
  -- A response whose request is in the window takes it out.
  matched : WindowedRequestTracking → ReadEnv → Globals → M → Pdu → Option Request → M × Handled
  matched w env g s p (some request) = (
    (r.delete env.delete_ended (get_sequence_number p) s).0,
    record { globals = g; events = on_expected_pdu_response p request ∷ []; closing = false },
  )
  matched w env g s p none = (
    s,
    record {
      globals = g;
      events = if w.on_unexpected_pdu_response then on_unexpected_pdu_response p ∷ [] else [];
      closing = false;
    },
  )

  requested : WindowedRequestTracking → Globals → Pdu → Handled
  unfolding call_back
  requested w g p = call_back g (on_received_pdu_request p) w.on_received_pdu_request p

  unsolicited : WindowedRequestTracking → Globals → Pdu → Handled
  unfolding requested answer
  unsolicited w g (Pdu.enquire_link c) =
      if w.enable_auto_respond
      then answer g (Pdu.enquire_link c) (λ p. respond p ∷ []) false
      else requested w g (Pdu.enquire_link c)
  unsolicited w g (Pdu.unbind c) =
      if w.enable_auto_respond
      then answer g (Pdu.unbind c) (λ p. respond p ∷ start_closing unbind_closing ∷ []) true
      else requested w g (Pdu.unbind c)
  unsolicited w g p = requested w g p

  -- handleWindowPdu, where the window is configured and OnExpectedPduResponse is set.
  unfoldable pub handle_window_pdu :
      WindowedRequestTracking → ReadEnv → Globals → M → Pdu → M × Handled
  unfolding matched unsolicited is_window_response
  handle_window_pdu w env g s p =
      if is_window_response p
      then matched w env g s p (r.get env.get_ended (get_sequence_number p) s)
      else (s, unsolicited w g p)

  handle_plain : Settings → Globals → Pdu → Option AllPduCallback → Handled
  unfolding handle_all_pdu handle_or_close
  handle_plain settings g p (some f) = handle_all_pdu settings g p
  handle_plain settings g p none = handle_or_close settings g p

  dispatch : Settings → ReadEnv → Globals → M → Pdu → Option WindowedRequestTracking → M × Handled
  unfolding handle_window_pdu handle_plain
  dispatch settings env g s p none = (s, handle_plain settings g p settings.on_all_pdu)
  dispatch settings env g s p (some w) =
      if w.on_expected_pdu_response
      then handle_window_pdu w env g s p
      else (s, handle_plain settings g p settings.on_all_pdu)

  -- The choice that the loop makes for a PDU.
  unfoldable pub handle : Settings → ReadEnv → Globals → M → Pdu → M × Handled
  unfolding dispatch
  handle settings env g s p = dispatch settings env g s p settings.windowed_request_tracking

-- What the loop did; `stopped` if it has returned, and else it still waits for a PDU.
pub record Received {ℓ} (M : Type ℓ) : Type ℓ where
  pub store : M
  pub globals : Globals
  pub stream : Bytes
  pub events : List Event
  pub stopped : Bool

-- `check`, and the closing that the loop starts; a panic ends the goroutine.
unfoldable pub check : Settings → Failure → List Event
check settings e =
    (if settings.on_receiving_error then on_receiving_error e ∷ [] else [])
    ++ (start_closing invalid_streaming ∷ [])

unfoldable pub check_parse : Settings → Error → List Event
unfolding check
check_parse settings e = if is_returned e then check settings (codec e) else crash e ∷ []

module _ {ℓ} {M : Type ℓ} (r : RequestStore M) (settings : Settings) where
  stop : Globals → M → Bytes → List Event → Received M
  stop g s stream events = record {
    store = s;
    globals = g;
    stream = stream;
    events = events;
    stopped = true;
  }

  prefix : List Event → Received M → Received M
  prefix events rest = record rest { events = events ++ rest.events }

  pub after_handle : M × Handled → (Globals → M → Received M) → Received M
  unfolding prefix
  after_handle (s, h) rest =
      prefix (h.events ++ (if h.closing then start_closing unbind_closing ∷ [] else []))
        (rest h.globals s)

  after_parse :
      ReadEnv → M → Outcome Pdu × Globals → (Globals → M → Bytes → Received M) → Received M
  unfolding handle after_handle check_parse stop
  after_parse env s (err e stream, g) rest = stop g s stream (check_parse settings e)
  after_parse env s (ok p stream, g) rest =
      after_handle (handle r settings env g s p) λ g' s'. rest g' s' stream

  read_next :
      ReadEnv
      → Globals
      → M
      → Bytes
      → Option Failure
      → (Globals → M → Bytes → Received M)
      → Received M
  unfolding after_parse check stop
  read_next env g s stream (some e) rest = stop g s stream (check settings e)
  read_next env g s stream none rest = after_parse env s (parse g stream) rest

  -- The loop over the rounds that the environment lets it take.
  unfoldable pub loop : List ReadEnv → Globals → M → Bytes → Received M
  unfolding read_next stop
  loop [] g s stream = record {
    store = s;
    globals = g;
    stream = stream;
    events = [];
    stopped = false;
  }
  loop (env ∷ envs) g s stream =
      let rest = loop envs in
      if env.cancelled then stop g s stream [] else read_next env g s stream env.deadline rest

-- What `close` leaves: whether the connection is closed, the callback and the error.
pub record Closed : Type 0 where
  pub closes : Bool
  pub events : List Event
  pub err : Option Failure

-- `close`, for the caller that its compare-and-swap of aliveState lets in, once the loop has returned.
unfoldable pub close : Settings → Option Failure → State → Closed
close settings conn_closed state = record {
  closes = closes_conn state;
  events = if settings.on_closed then on_closed state ∷ [] else [];
  err = if closes_conn state then conn_closed else none;
}
