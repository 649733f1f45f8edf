-- ===== src/Session/Transmitter/Order.antt =====
-- What the loop of transmittable.go sends: the PDUs of the channel one after the other.
use gosmpp.Prelude.{
  ℕ, ◌≡◌, refl, Bool, if◌then◌else◌, ◌==◌, true, false, not, Bool-cases, inl, inr, lt→ltb, ◌&&◌,
  List, [], ◌∷◌, ◌++◌, Option, none, some, ltb, ◌<◌, arith, take,
}
use gosmpp.Outcome.{Bytes}
use gosmpp.Packet.{Pdu}
use gosmpp.Globals.{Globals}
use gosmpp.Wire.{marshal}
use gosmpp.Session.Failure.{network}
use gosmpp.Session.Duration.{is_positive}
use gosmpp.Session.Settings.{Settings, WindowedRequestTracking}
use gosmpp.Session.Store.{Request, RequestStore}
use gosmpp.Session.Store.Refinement.{IsStore}
use gosmpp.Session.Transmitter.{
  WriteEnv, Written, Input, received, write, write_now, write_pdu, write_tracked, remember,
  window_size, is_allow_pdu, check, is_fatal, loop, go_on,
}
use gosmpp.Session.Transmitter.Window.{GoesWell, write-whole_write, no_deadline, counted_size}

-- The bytes of PDUs one after the other.
unfoldable pub wires : List Pdu → Bytes
wires [] = []
wires (p ∷ ps) = (marshal p).1 ++ wires ps

abbrev pub queued : List (Pdu × WriteEnv) → List (Input × WriteEnv)
queued [] = []
queued ((p, env) ∷ l) = (received (some p), env) ∷ queued l

abbrev pub pdus : List (Pdu × WriteEnv) → List Pdu
pdus [] = []
pdus ((p, env) ∷ l) = p ∷ pdus l

abbrev pub AllGoWell : List (Pdu × WriteEnv) → Type 0
AllGoWell [] = Unit
AllGoWell ((p, env) ∷ l) = GoesWell env p × AllGoWell l

module _ {ℓ} {M : Type ℓ} (r : RequestStore M) (settings : Settings) where
  pub loop-wires :
      (g : Globals) (s : M) (l : List (Pdu × WriteEnv))
      → settings.windowed_request_tracking ≡ none
      → AllGoWell l
      → loop r settings g s (queued l)
        ≡ record { store = s; globals = g; events = []; bytes = wires (pdus l); stopped = false }
  unfolding loop wires go_on check
  loop-wires g s [] off h = refl
  loop-wires g s ((p, env) ∷ l) off (h, hs) =
      let free : (ltb 0 (window_size r settings.windowed_request_tracking) && is_allow_pdu p)
          ≡ false =
        rw off refl in
      rw (write-whole_write r settings env s p h free, loop-wires g s l off hs) refl

-- A request under a window takes a place in it.
abbrev pub takes_place : Option WindowedRequestTracking → Pdu → Bool
takes_place none p = false
takes_place (some w) p = ltb 0 w.max_window_size && is_allow_pdu p

module _ {ℓ} {M : Type ℓ} (r : RequestStore M) (view : M → ℕ → Option Request) (size : M → ℕ)
    (h : IsStore r view size) where
  -- What a write leaves that the connection took `n` bytes of.
  abbrev pub partly_written : Settings → M → Pdu → ℕ → Written M
  partly_written settings s p n = record {
    pdu = (marshal p).0;
    n = if takes_place settings.windowed_request_tracking p then 0 else n;
    err = some (network false);
    store = s;
    bytes = take n (marshal p).1;
  }

  takes_place_lem :
      (o : Option WindowedRequestTracking) (p : Pdu)
      → (ltb 0 (window_size r o) && is_allow_pdu p) ≡ takes_place o p
  takes_place_lem none p = refl
  takes_place_lem (some w) p = refl

  -- What `remember` and `write_pdu` make of a partial write.
  write-partly_written :
      (settings : Settings) (env : WriteEnv) (s : M) (p : Pdu) (n : ℕ)
      → env.timeout_set ≡ none
      → env.length_ended ≡ false
      → env.wrote ≡ (n, some (network false))
      → (takes_place settings.windowed_request_tracking p ≡ true
          → size s < window_size r settings.windowed_request_tracking)
      → write r settings env s p ≡ partly_written settings s p n
  unfolding write write_now write_tracked write_pdu remember
  write-partly_written settings env s p n deadline counted partial room =
      let o = settings.windowed_request_tracking in
      let ready = no_deadline (is_positive settings.write_timeout) env.timeout_set deadline in
      elim (Bool-cases (takes_place o p)) [
        | inl e ↦
            rw
              (
                ready,
                takes_place_lem o p,
                e,
                counted_size r view size h env.length_ended s counted,
                lt→ltb (size s) (window_size r o) (room e),
                partial,
              )
              refl
        | inr e ↦ rw (ready, takes_place_lem o p, e, partial) refl
      ]

  -- If the deadline is set, the context of the size of the store has not ended, and the window has
  -- a place for a request that needs one, and the connection takes only some bytes of a PDU, at
  -- least one, and gives an error that is no timeout: those bytes have gone out, the store is as
  -- it was, and write gives that error. For a request that takes a place in a window write reports
  -- 0 bytes, and check does not close the connection; for any other PDU, and without a window, it
  -- reports the bytes, and check closes the connection.
  pub write_partial :
      (settings : Settings) (env : WriteEnv) (s : M) (p : Pdu) (n : ℕ)
      → env.timeout_set ≡ none
      → env.length_ended ≡ false
      → env.wrote ≡ (n, some (network false))
      → 0 < n
      → (takes_place settings.windowed_request_tracking p ≡ true
          → size s < window_size r settings.windowed_request_tracking)
      → let w = write r settings env s p in
        (w ≡ partly_written settings s p n)
        × ((check settings w.pdu w.n w.err).0
            ≡ not (takes_place settings.windowed_request_tracking p))
  unfolding check is_fatal
  write_partial settings env s p n deadline counted partial some_bytes room =
      let o = settings.windowed_request_tracking in
      let sent = write-partly_written settings env s p n deadline counted partial room in
      elim (Bool-cases (takes_place o p)) [
        | inl e ↦ (sent, rw (sent, e) refl)
        | inr e ↦
            let went_out : (n == 0) ≡ false = ground arith in (sent, rw (sent, e, went_out) refl)
      ]
