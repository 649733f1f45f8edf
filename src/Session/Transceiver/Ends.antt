-- ===== src/Session/Transceiver/Ends.antt =====
-- What is left when a half of transceivable.go closes by itself, and after Close.
use gosmpp.Prelude.{
  ◌+◌, if◌then◌else◌, ◌≡◌, refl, ◌∙◌, Bool, true, false, Bool-cases, inl, inr, List, [], ◌∷◌, none,
  arith,
}
use gosmpp.Session.Settings.{
  Settings, State, Event, on_closed, connection_issue, invalid_streaming, unbind_closing,
  explicit_closing, stopping_process_only, closes_conn,
}
use gosmpp.Session.Store.{RequestStore}
use gosmpp.Session.Transceiver.{
  Transceiver, Outside, Half, output, input, tell, close_half, close, transmitter_settings,
}
use gosmpp.Session.Transceiver.Closing.{
  closings, closings-append, is_own, close_half-closed_half, loud, quiet, add, drained, out_claimed,
  in_claimed, drain_window_quiet,
}

-- Both halves have stopped, and the connection is closed.
pub record HasEnded {ℓ} {M : Type ℓ} (t : Transceiver M) : Type 0 where
  pub out_stopped : t.out_alive ≡ false
  pub in_stopped : t.in_alive ≡ false
  pub conn_closed : t.conn_open ≡ false

abbrev pub half_alive {ℓ} : {M : Type ℓ} → Half → Transceiver M → Bool
half_alive output t = t.out_alive
half_alive input t = t.in_alive

module _ {ℓ} {M : Type ℓ} (r : RequestStore M) (settings : Settings) (env : Outside) where
  drained_quiet :
      (state : State) (t : Transceiver M) → closings (drained r settings env state t) ≡ 0
  unfolding transmitter_settings
  drained_quiet state t =
      drain_window_quiet r (transmitter_settings settings) settings.windowed_request_tracking
        env.out_close _ _

  add-HasEnded :
      (es : List Event) (t : Transceiver M) → HasEnded t → HasEnded (add r settings env es t)
  add-HasEnded es t h = record {
    out_stopped = h.out_stopped;
    in_stopped = h.in_stopped;
    conn_closed = h.conn_closed;
  }

  quiet_in-HasEnded :
      (t : Transceiver M)
      → t.out_alive ≡ false
      → t.conn_open ≡ false
      → HasEnded (quiet r settings env input explicit_closing t)
        × (closings (quiet r settings env input explicit_closing t).events ≡ closings t.events)
  quiet_in-HasEnded t out conn = elim (Bool-cases t.in_alive) [
    | inl e ↦ rw e (record { out_stopped = out; in_stopped = refl; conn_closed = refl }, refl)
    | inr e ↦ rw e (record { out_stopped = out; in_stopped = refl; conn_closed = conn }, refl)
  ]

  quiet_out-HasEnded :
      (t : Transceiver M)
      → t.in_alive ≡ false
      → t.conn_open ≡ false
      → HasEnded (quiet r settings env output explicit_closing t)
        × (closings (quiet r settings env output explicit_closing t).events ≡ closings t.events)
  quiet_out-HasEnded t input_stopped conn = elim (Bool-cases t.out_alive) [
    | inl e ↦ rw e (
      record { out_stopped = refl; in_stopped = input_stopped; conn_closed = refl },
      omega (
        arith,
        closings-append t.events (drained r settings env explicit_closing t),
        drained_quiet explicit_closing t,
      ),
    )
    | inr e ↦
        rw e (record { out_stopped = refl; in_stopped = input_stopped; conn_closed = conn }, refl)
  ]

  -- A transceiver that has ended, with one call of OnClosed more than `t` had, if OnClosed is set,
  -- and else with none.
  abbrev pub ClosedOnce : Transceiver M → Transceiver M → Type 0
  ClosedOnce t t' =
      HasEnded t' × (closings t'.events ≡ (if settings.on_closed then 1 else 0) + closings t.events)

  tell-ClosedOnce :
      (state : State) (t t' : Transceiver M)
      → HasEnded t' × (closings t'.events ≡ closings t.events)
      → ClosedOnce t (tell r settings env state t')
  unfolding tell
  tell-ClosedOnce state t t' (ended, same) = elim (Bool-cases settings.on_closed) [
    | inl on ↦ rw on (
      add-HasEnded _ t' ended,
      omega (arith, closings-append t'.events (on_closed state ∷ []), same),
    )
    | inr off ↦ rw off (ended, omega (arith, same))
  ]

  drain-ClosedOnce :
      (state : State) (u t t' : Transceiver M)
      → ClosedOnce t t'
      → ClosedOnce t (add r settings env (drained r settings env state u) t')
  drain-ClosedOnce state u t t' (ended, one) = (
    add-HasEnded _ t' ended,
    omega (
      arith,
      closings-append t'.events (drained r settings env state u),
      drained_quiet state u,
      one,
    ),
  )

  loud_out-ClosedOnce :
      (t : Transceiver M)
      → t.out_alive ≡ true
      → ClosedOnce t (loud r settings env output connection_issue t)
  loud_out-ClosedOnce t alive =
      let claimed = out_claimed r settings env connection_issue t in
      let told = tell-ClosedOnce connection_issue t _ (quiet_in-HasEnded claimed refl refl) in
      rw alive (drain-ClosedOnce connection_issue t t _ told)

  loud_in-ClosedOnce :
      (state : State) (t : Transceiver M)
      → closes_conn state ≡ true
      → t.in_alive ≡ true
      → ClosedOnce t (loud r settings env input state t)
  loud_in-ClosedOnce state t closes alive =
      let claimed = in_claimed r settings env state t in
      rw alive (tell-ClosedOnce state t _ (quiet_out-HasEnded claimed refl (rw closes refl)))

  -- When the transmitter closes on a connection issue, or the receiver on an invalid stream or an
  -- unbind, both halves have stopped and the connection is closed afterwards, whether or not
  -- OnClosed of the user is set, and OnClosed was called exactly once if it is set, and else not
  -- at all.
  pub close_half-ClosedOnce :
      (half : Half) (state : State) (t : Transceiver M)
      → is_own r settings env half state ≡ true
      → half_alive half t ≡ true
      → ClosedOnce t (close_half r settings env 2 half state t)
  close_half-ClosedOnce half state t own alive =
      rw (close_half-closed_half r settings env 0 half state t, own)
        (loud_once half state own alive)
    where
      loud_once :
          (half : Half) (state : State)
          → is_own r settings env half state ≡ true
          → half_alive half t ≡ true
          → ClosedOnce t (loud r settings env half state t)
      loud_once output explicit_closing own alive = cc
      loud_once output stopping_process_only own alive = cc
      loud_once output invalid_streaming own alive = cc
      loud_once output connection_issue own alive = loud_out-ClosedOnce t alive
      loud_once output unbind_closing own alive = cc
      loud_once input explicit_closing own alive = cc
      loud_once input stopping_process_only own alive = cc
      loud_once input invalid_streaming own alive = loud_in-ClosedOnce _ t refl alive
      loud_once input connection_issue own alive = cc
      loud_once input unbind_closing own alive = loud_in-ClosedOnce _ t refl alive

  -- Close stops both halves without a call of OnClosed.
  record Stops (t t' : Transceiver M) : Type 0 where
    out_stopped : t'.out_alive ≡ false
    same_alive : t'.alive ≡ t.alive
    same_closings : closings t'.events ≡ closings t.events

  quiet_out-Stops :
      (t : Transceiver M) → Stops t (quiet r settings env output stopping_process_only t)
  quiet_out-Stops t = elim (Bool-cases t.out_alive) [
    | inl e ↦ rw e (record {
      out_stopped = refl;
      same_alive = refl;
      same_closings = omega (
        arith,
        closings-append t.events (drained r settings env stopping_process_only t),
        drained_quiet stopping_process_only t,
      );
    })
    | inr e ↦ rw e (record { out_stopped = refl; same_alive = refl; same_closings = refl })
  ]

  quiet_in-Stops :
      (t u : Transceiver M)
      → Stops t u
      → Stops t (quiet r settings env input stopping_process_only u)
        × ((quiet r settings env input stopping_process_only u).in_alive ≡ false)
  quiet_in-Stops t u h = elim (Bool-cases u.in_alive) [
    | inl e ↦ rw e (
      record {
        out_stopped = h.out_stopped;
        same_alive = h.same_alive;
        same_closings = h.same_closings;
      },
      refl,
    )
    | inr e ↦ rw e (
      record {
        out_stopped = h.out_stopped;
        same_alive = h.same_alive;
        same_closings = h.same_closings;
      },
      refl,
    )
  ]

  both_stopped : Transceiver M → Transceiver M
  both_stopped t =
      quiet r settings env input stopping_process_only
        (quiet r settings env output stopping_process_only (record t { alive = false }))

  close-both_stopped :
      (t : Transceiver M)
      → t.alive ≡ true
      → close r settings env t ≡ (
        tell r settings env explicit_closing (record (both_stopped t) { conn_open = false }),
        env.conn_closed,
      )
  unfolding close both_stopped
  close-both_stopped t alive =
      rw
        (
          alive,
          close_half-closed_half r settings env 0 output stopping_process_only
              (record t { alive = false }),
          close_half-closed_half r settings env 0 input stopping_process_only
              (quiet r settings env output stopping_process_only (record t { alive = false })),
        )
        refl

  both_stopped-Stops :
      (t : Transceiver M)
      → Stops (record t { alive = false }) (both_stopped t) × ((both_stopped t).in_alive ≡ false)
  unfolding both_stopped
  both_stopped-Stops t =
      quiet_in-Stops (record t { alive = false }) _ (quiet_out-Stops (record t { alive = false }))

  -- Close of a transceiver that is alive stops both halves, closes the connection and returns the
  -- result of closing it, whether or not OnClosed of the user is set, and calls OnClosed exactly
  -- once if it is set, and else not at all.
  pub close-ClosedOnce :
      (t : Transceiver M)
      → t.alive ≡ true
      → ClosedOnce t (close r settings env t).0 × ((close r settings env t).1 ≡ env.conn_closed)
  close-ClosedOnce t alive =
      let (stops, in_stopped) = both_stopped-Stops t in
      rw (close-both_stopped t alive) (
        tell-ClosedOnce explicit_closing t (record (both_stopped t) { conn_open = false })
            (
              record {
                out_stopped = stops.out_stopped;
                in_stopped = in_stopped;
                conn_closed = refl;
              },
              stops.same_closings,
            ),
        refl,
      )

  close_dead : (t : Transceiver M) → t.alive ≡ false → close r settings env t ≡ (t, none)
  unfolding close
  close_dead t dead = rw dead refl

  tell_alive : (state : State) (t : Transceiver M) → (tell r settings env state t).alive ≡ t.alive
  unfolding tell
  tell_alive state t = elim (Bool-cases settings.on_closed) [
    | inl e ↦ rw e refl
    | inr e ↦ rw e refl
  ]

  pub close_twice :
      (t : Transceiver M)
      → close r settings env (close r settings env t).0 ≡ ((close r settings env t).0, none)
  close_twice t = elim (Bool-cases t.alive) [
    | inl alive ↦
        let (stops, _) = both_stopped-Stops t in
        let ended : (close r settings env t).0.alive ≡ false =
          rw (close-both_stopped t alive) (tell_alive explicit_closing _ ∙ stops.same_alive) in
        close_dead (close r settings env t).0 ended
    | inr dead ↦ rw (close_dead t dead) (close_dead t dead)
  ]
