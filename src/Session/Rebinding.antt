-- ===== src/Session/Rebinding.antt =====
-- Session of session.go: NewSession with its checks, Close, GetWindowSize and rebind.
pub mod Checks
pub mod Recovery
use gosmpp.Prelude.{
  ℕ, Bool, true, false, not, ◌&&◌, ◌||◌, List, [], ◌∷◌, ◌++◌, Option, none, some, ◌==◌,
  if◌then◌else◌,
}
use gosmpp.Outcome.{Bytes}
use gosmpp.Globals.{Globals}
use gosmpp.Pdu.BindRequest.{BindingType, receiver}
use gosmpp.Session.Failure.{
  Failure, invalid_settings, window_size_equal_zero, store_access_time_out_equal_zero,
  expire_check_timer_not_set, window_size_not_available,
}
use gosmpp.Session.Duration.{ℤ, is_positive, is_zero, at_most}
use gosmpp.Session.Settings.{
  Settings, WindowedRequestTracking, State, Event, on_closed, on_rebinding_error, on_rebind,
  explicit_closing,
}
use gosmpp.Session.Store.{RequestStore}
use gosmpp.Session.Connection.{Peer, Connected, Connector, connect_with, get_bind_type}
use gosmpp.Session.Transceiver
use gosmpp.Session.Transceiver.{Transceiver, Outside, new_transceivable}

unfoldable pub check_window : WindowedRequestTracking → Option Failure
check_window w =
    if w.max_window_size == 0
    then some window_size_equal_zero
    else if is_zero w.store_access_time_out
    then some store_access_time_out_equal_zero
    else if is_positive w.pdu_expire_time_out && is_zero w.expire_check_timer
    then some expire_check_timer_not_set
    else none

unfoldable pub check_tracking : Option WindowedRequestTracking → Option Failure
unfolding check_window
check_tracking none = none
check_tracking (some w) = check_window w

-- The checks of NewSession.
unfoldable pub check_settings : Settings → Option Failure
unfolding check_tracking
check_settings settings =
    if not (is_positive settings.read_timeout)
      || at_most settings.read_timeout settings.enquire_link
    then some invalid_settings
    else check_tracking settings.windowed_request_tracking

-- `events` are the calls of the user's callbacks; the store of the session is that of its transceiver.
pub record Session {ℓ} (M : Type ℓ) : Type ℓ where
  pub connector : Connector
  pub original_on_closed : Bool
  pub settings : Settings
  pub rebinding_interval : ℤ
  pub trx : Transceiver M
  pub alive : Bool
  pub rebinding : Bool
  pub events : List Event

-- With a positive interval the OnClosed of the transceivers is the session's own, `on_trx_closed`.
unfoldable pub session_settings : Settings → ℤ → Settings
session_settings settings rebinding_interval =
    if is_positive rebinding_interval then record settings { on_closed = true } else settings

-- WithRequestStore
abbrev pub choose_store {ℓ} : {M : Type ℓ} → M → List M → M
choose_store s [] = s
choose_store s (s' ∷ opts) = choose_store s' opts

-- The results of NewSession, the bytes sent, and the package variables after it.
pub record Opened {ℓ} (M : Type ℓ) : Type ℓ where
  pub session : Option (Session M)
  pub err : Option Failure
  pub sent : Bytes
  pub globals : Globals

module _ {ℓ} {M : Type ℓ} where
  connected : Settings → ℤ → Connector → M → Connected → Option Failure → Opened M
  connected settings rebinding_interval c s conn (some e) = record {
    session = none;
    err = some e;
    sent = conn.sent;
    globals = conn.globals;
  }
  connected settings rebinding_interval c s conn none = record {
    session = some (record {
      connector = c;
      original_on_closed = settings.on_closed;
      settings = session_settings settings rebinding_interval;
      rebinding_interval = rebinding_interval;
      trx = new_transceivable conn.globals s;
      alive = true;
      rebinding = false;
      events = [];
    });
    err = none;
    sent = conn.sent;
    globals = conn.globals;
  }

  checked : Globals → Peer → Connector → Settings → ℤ → M → Option Failure → Opened M
  unfolding connected
  checked g peer c settings rebinding_interval s (some e) = record {
    session = none;
    err = some e;
    sent = [];
    globals = g;
  }
  checked g peer c settings rebinding_interval s none =
      let conn = connect_with g peer c in connected settings rebinding_interval c s conn conn.err

  -- NewSession, with the store that NewDefaultStore gives.
  unfoldable pub new_session : Globals → Peer → Connector → Settings → ℤ → M → List M → Opened M
  unfolding checked
  new_session g peer c settings rebinding_interval s opts =
      checked g peer c settings rebinding_interval (choose_store s opts) (check_settings settings)

-- A round of the loop of `rebind`: whether Session.Close comes before the state is looked at, the peer
-- that the round dials, and whether Session.Close comes while it binds.
pub record Attempt : Type 0 where
  pub closed_before : Bool
  pub peer : Peer
  pub closed_meanwhile : Bool

module _ {ℓ} {M : Type ℓ} (r : RequestStore M) (env : Outside) where
  -- The bound transceiver is closed.
  unfoldable pub close_bound : Session M → Session M × Option Failure
  close_bound s =
      let (trx, err) = Transceiver.close r s.settings env s.trx in (record s { trx = trx }, err)

  -- Session.Close
  unfoldable pub close : Session M → Session M × Option Failure
  unfolding close_bound
  close s = if s.alive then close_bound (record s { alive = false }) else (s, none)

  close_if : Bool → Session M → Session M
  unfolding close
  close_if true s = (close s).0
  close_if false s = s

  -- After Connect: the loop goes on after an error, and else a new transceiver is bound.
  bind_again : Connected → Option Failure → Session M → (Session M → Session M) → Session M
  bind_again conn (some e) s rest = rest (record s {
    trx = record s.trx { globals = conn.globals };
    events = s.events ++ (if s.settings.on_rebinding_error then on_rebinding_error e ∷ [] else []);
  })
  bind_again conn none s rest = record s {
    trx = new_transceivable conn.globals s.trx.store;
    rebinding = false;
    events = s.events ++ (if s.settings.on_rebind then on_rebind ∷ [] else []);
  }

  try_bind : Attempt → Session M → (Session M → Session M) → Session M
  unfolding bind_again close_if
  try_bind a s rest =
      let conn = connect_with s.trx.globals a.peer s.connector in
      if s.alive then bind_again conn conn.err (close_if a.closed_meanwhile s) rest else s

  -- The loop of `rebind`, over the rounds that there are.
  unfoldable pub retry : List Attempt → Session M → Session M
  unfolding try_bind
  retry [] s = s
  retry (a ∷ attempts) s = try_bind a (close_if a.closed_before s) (retry attempts)

  unfoldable pub rebind : List Attempt → Session M → Session M
  unfolding retry
  rebind attempts s =
      if s.rebinding then s else retry attempts (close_bound (record s { rebinding = true })).0

  -- The OnClosed that NewSession gives to the transceivers where it rebinds.
  unfoldable pub on_trx_closed : List Attempt → State → Session M → Session M
  unfolding rebind
  on_trx_closed attempts explicit_closing s = s
  on_trx_closed attempts state s =
      rebind attempts (
        if s.original_on_closed
        then record s { events = s.events ++ (on_closed state ∷ []) }
        else s)

  -- GetWindowSize
  unfoldable pub get_window_size : Bool → Session M → ℕ × Option Failure
  get_window_size ended s = of_bind (get_bind_type s.connector)
    where
      no_count : ℕ × Option Failure → ℕ × Option Failure
      no_count (size, some e) = (0, some e)
      no_count (size, none) = (size, none)

      of_bind : BindingType → ℕ × Option Failure
      of_bind receiver = (0, some window_size_not_available)
      of_bind b = no_count (Transceiver.get_window_size r s.settings env ended s.trx)
