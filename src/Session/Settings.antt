-- ===== src/Session/Settings.antt =====
-- Settings and WindowedRequestTracking of pkg.go, State of state.go, and what a session does that its
-- user or its peer can see.
use gosmpp.Prelude.{ℕ, Bool, true, false, Option}
use gosmpp.Outcome.{Error}
use gosmpp.Packet.{Pdu}
use gosmpp.Session.Failure.{Failure}
use gosmpp.Session.Duration.{ℤ}
use gosmpp.Session.Store.{Request}

pub data State : Type 0 where
  explicit_closing stopping_process_only invalid_streaming connection_issue unbind_closing : State

-- `state != StoppingProcessOnly`: only then `close` of either half closes the connection.
abbrev pub closes_conn : State → Bool
closes_conn stopping_process_only = false
closes_conn _ = true

-- A callback that returns nothing is a flag, whether it is set; its calls are events. AllPDUCallback
-- is a function: its response, if any, and whether to close the bind.
abbrev pub AllPduCallback : Type 0
AllPduCallback = Pdu → Option Pdu × Bool

pub record WindowedRequestTracking : Type 0 where
  pub on_received_pdu_request : Option AllPduCallback
  pub on_expected_pdu_response : Bool
  pub on_unexpected_pdu_response : Bool
  pub on_expired_pdu_request : Option (Pdu → Bool)
  pub on_close_pdu_request : Bool
  pub pdu_expire_time_out : ℤ
  pub expire_check_timer : ℤ
  pub max_window_size : ℕ
  pub enable_auto_respond : Bool
  pub store_access_time_out : ℤ

pub record Settings : Type 0 where
  pub read_timeout : ℤ
  pub write_timeout : ℤ
  pub enquire_link : ℤ
  pub on_pdu : Bool
  pub on_all_pdu : Option AllPduCallback
  pub on_receiving_error : Bool
  pub on_submit_error : Bool
  pub on_rebinding_error : Bool
  pub on_closed : Bool
  pub on_rebind : Bool
  pub windowed_request_tracking : Option WindowedRequestTracking

-- `respond` is a call of `settings.response`, `start_closing` one of `closing`, and `crash` a panic of
-- the goroutine. The others are the callbacks of the same names.
pub data Event : Type 0 where
  respond : Option Pdu → Event
  on_pdu : Pdu → Bool → Event
  on_all_pdu on_received_pdu_request on_unexpected_pdu_response : Pdu → Event
  on_expected_pdu_response : Pdu → Request → Event
  on_submit_error : Pdu → Failure → Event
  on_receiving_error on_rebinding_error : Failure → Event
  on_expired_pdu_request on_close_pdu_request : Pdu → Event
  on_closed start_closing : State → Event
  on_rebind close_transceiver : Event
  crash : Error → Event
