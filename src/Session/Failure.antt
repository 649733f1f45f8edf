-- ===== src/Session/Failure.antt =====
-- The errors of the session layer (session.go, transmittable.go, transceivable.go, connect.go), and
-- what `err.(net.Error)` and `errors.Is` find out about them.
use gosmpp.Prelude.{ℕ, Bool, true, false, Option, none, some}
use gosmpp.Outcome.{Error}

-- `context_ended` is context.DeadlineExceeded, `network` an error of the connection with its
-- Timeout(), and `codec` an error of pdu.Parse.
pub data Failure : Type 0 where
  windows_full connection_closing context_ended invalid_settings : Failure
  window_size_equal_zero store_access_time_out_equal_zero expire_check_timer_not_set : Failure
  window_size_not_available window_not_configured : Failure
  network : Bool → Failure
  bind_error : ℕ → Failure
  codec : Error → Failure

-- The Timeout() of an error that is a net.Error.
abbrev pub as_net_error : Failure → Option Bool
as_net_error context_ended = some true
as_net_error (network timeout) = some timeout
as_net_error _ = none

abbrev pub is_windows_full : Failure → Bool
is_windows_full windows_full = true
is_windows_full _ = false
