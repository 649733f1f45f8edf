-- ===== src/Session/Receiver/Stream.antt =====
-- The loop of receivable.go on the bytes that the loop of transmittable.go sends.
use gosmpp.Prelude.{◌≤◌, ◌≡◌, refl, false, List, [], ◌∷◌, none, length}
use gosmpp.Globals.{Globals}
use gosmpp.Packet.{Pdu, base_of}
use gosmpp.Wire.{marshal}
use gosmpp.Wire.RoundTrip.{IsSendable, arrived}
use gosmpp.Factory.{create_pdu_from_cmd_id}
use gosmpp.Factory.Typed.{IsTyped}
use gosmpp.Parse.RoundTrip.{parse-marshal_created}
use gosmpp.Session.Settings.{Settings}
use gosmpp.Session.Store.{RequestStore}
use gosmpp.Session.Transmitter
use gosmpp.Session.Transmitter.{WriteEnv}
use gosmpp.Session.Transmitter.Order.{wires, queued, pdus, AllGoWell, loop-wires}
use gosmpp.Session.Receiver.{ReadEnv, Received, handle, after_handle, after_parse, read_next, loop}

-- The receiver waits on and its deadline is set.
pub record IsWaiting (env : ReadEnv) : Type 0 where
  pub going_on : env.cancelled ≡ false
  pub deadline_set : env.deadline ≡ none

-- A PDU that survives the wire.
pub record IsReadable (p : Pdu) : Type 0 where
  pub typed : IsTyped p
  pub sendable : IsSendable p
  pub short : length (marshal p).1 ≤ 65536

abbrev pub AllReadable : List Pdu → Type 0
AllReadable [] = Unit
AllReadable (p ∷ ps) = IsReadable p × AllReadable ps

-- As many rounds as PDUs, all of them waiting.
abbrev pub AllWaiting : List ReadEnv → List Pdu → Type 0
AllWaiting [] [] = Unit
AllWaiting (env ∷ envs) (p ∷ ps) = IsWaiting env × AllWaiting envs ps
AllWaiting _ _ = ⊥

module _ {ℓ} {M : Type ℓ} (r : RequestStore M) (settings : Settings) where
  -- Each PDU is handled in turn, as it arrives, with no bytes in between.
  abbrev pub deliver : List ReadEnv → Globals → M → List Pdu → Received M
  deliver [] g s ps = record { store = s; globals = g; stream = []; events = []; stopped = false }
  deliver (env ∷ envs) g s [] = record {
    store = s;
    globals = g;
    stream = [];
    events = [];
    stopped = false;
  }
  deliver (env ∷ envs) g s (p ∷ ps) =
      let g' = (create_pdu_from_cmd_id g (base_of p).header.command_id).1 in
      after_handle r settings (handle r settings env g' s (arrived p))
        λ g'' s'. deliver envs g'' s' ps

  pub loop-deliver :
      (envs : List ReadEnv) (g : Globals) (s : M) (ps : List Pdu)
      → AllReadable ps
      → AllWaiting envs ps
      → loop r settings envs g s (wires ps) ≡ deliver envs g s ps
  unfolding loop wires read_next after_parse after_handle
  loop-deliver [] g s [] h w = refl
  loop-deliver (env ∷ envs) g s (p ∷ ps) (h, hs) (w, ws) =
      let g' = (create_pdu_from_cmd_id g (base_of p).header.command_id).1 in
      let (s', handled) = handle r settings env g' s (arrived p) in
      rw
        (
          w.going_on,
          w.deadline_set,
          parse-marshal_created g p (wires ps) h.typed h.sendable h.short,
          loop-deliver envs handled.globals s' ps hs ws,
        )
        refl
  loop-deliver [] g s (p ∷ ps) h w = absurd w
  loop-deliver (env ∷ envs) g s [] h w = absurd w

  -- What the loop of a transmitter without a window writes for a queue of PDUs, where every write
  -- goes through whole, the loop of a receiver that is not stopped handles PDU by PDU, each as it
  -- arrives, in the order of the queue and with nothing left over, if each of them has the command
  -- identifier, the map of optional parameters (nil for a query_sm) and the data_coding byte of
  -- its type, fits its places on the wire and takes at most 65536 bytes.
  pub loop-loop :
      (sender : Settings) (g : Globals) (s : M) (l : List (Pdu × WriteEnv))
      → (envs : List ReadEnv) (g' : Globals) (s' : M) → sender.windowed_request_tracking ≡ none
      → AllGoWell l
      → AllReadable (pdus l)
      → AllWaiting envs (pdus l)
      → loop r settings envs g' s' (Transmitter.loop r sender g s (queued l)).bytes
        ≡ deliver envs g' s' (pdus l)
  loop-loop sender g s l envs g' s' off well readable waiting =
      rw (loop-wires r sender g s l off well) (loop-deliver envs g' s' (pdus l) readable waiting)
