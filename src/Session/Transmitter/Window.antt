-- ===== src/Session/Transmitter/Window.antt =====
-- The window of requests under `write` of transmittable.go: it never holds more than MaxWindowSize.
use gosmpp.Prelude.{
  ℕ, ◌+◌, ◌≤◌, ◌<◌, ◌≡◌, refl, ap, ◌∙◌, sym, Bool, true, false, ◌&&◌, List, [], ◌∷◌, Option, none,
  some, ltb, ltb→lt, lt→ltb, ge→ltb, take, take-append, append-nil, if◌then◌else◌, arith,
  Bool-cases, inl, inr, length,
}
use gosmpp.Packet.{Pdu}
use gosmpp.Globals.{Globals}
use gosmpp.Wire.{marshal}
use gosmpp.Session.Failure.{Failure, windows_full}
use gosmpp.Session.Duration.{is_positive}
use gosmpp.Session.Settings.{Settings, Event}
use gosmpp.Session.Store.{Request, RequestStore}
use gosmpp.Session.Store.Refinement.{IsStore}
use gosmpp.Session.Transmitter.{
  WriteEnv, Written, Input, received, ticked, Run, keep, remember, write_pdu, write_tracked,
  write_now, write, window_size, is_allow_pdu, loop, go_on,
}
use gosmpp.Pdu.EnquireLink

module _ {ℓ} {M : Type ℓ} (r : RequestStore M) (view : M → ℕ → Option Request) (size : M → ℕ)
    (h : IsStore r view size) where
  length_reads :
      (ended : Bool) (s : M) → (r.length ended s).1 ≡ none → (r.length ended s).0 ≡ size s
  length_reads false s e = ap (λ (l : ℕ × Option Failure). l.0) (h.length-size s)
  length_reads true s e = cc (sym (h.length-ended s) ∙ e)

  set_grows : (ended : Bool) (q : Request) (s : M) → size (r.set ended q s).0 ≤ size s + 1
  set_grows false q s = ground (arith, h.set-size q s)
  set_grows true q s = rw (h.set-ended q s) (omega arith)

  keep_store : (w : Written M) (x : M × Option Failure) → (keep r w x).store ≡ x.0
  unfolding keep
  keep_store w (s, none) = refl
  keep_store w (s, some e) = refl

  remember_grows :
      (env : WriteEnv) (p : Pdu) (w : Written M) (o : Option Failure)
      → size (remember r env p w o).store ≤ size w.store + 1
  unfolding remember
  remember_grows env p w (some e) = omega arith
  remember_grows env p w none = rw (keep_store w _) (set_grows env.set_ended _ w.store)

  write_tracked_bounded :
      (max : ℕ) (env : WriteEnv) (s : M) (p : Pdu) (l : ℕ × Option Failure)
      → (l.1 ≡ none → l.0 ≡ size s)
      → size s ≤ max
      → size (write_tracked r max env s p l).store ≤ max
  unfolding write_tracked write_pdu
  write_tracked_bounded max env s p (n, some e) k b = b
  write_tracked_bounded max env s p (n, none) k b = elim (Bool-cases (ltb n max)) [
    | inl e ↦ rw e (
        omega
          (arith, k refl, ltb→lt n max e, remember_grows env p (write_pdu r env s p) env.wrote.1))
    | inr e ↦ rw e b
  ]

  write_now_bounded :
      (settings : Settings) (env : WriteEnv) (s : M) (p : Pdu) (o : Option Failure)
      → size s ≤ window_size r settings.windowed_request_tracking
      → size (write_now r settings env s p o).store
        ≤ window_size r settings.windowed_request_tracking
  unfolding write_now write_pdu
  write_now_bounded settings env s p (some e) b = b
  write_now_bounded settings env s p none b =
      let max = window_size r settings.windowed_request_tracking in
      elim (Bool-cases (ltb 0 max && is_allow_pdu p)) [
        | inl e ↦ rw e (
            write_tracked_bounded max env s p (r.length env.length_ended s)
              (length_reads env.length_ended s) b)
        | inr e ↦ rw e b
      ]

  pub write_bounded :
      (settings : Settings) (env : WriteEnv) (s : M) (p : Pdu)
      → size s ≤ window_size r settings.windowed_request_tracking
      → size (write r settings env s p).store ≤ window_size r settings.windowed_request_tracking
  unfolding write
  write_bounded settings env s p b = write_now_bounded settings env s p _ b

  go_on_store :
      (settings : Settings) (g : Globals) (w : Written M) (c : Bool × List Event) (rest : Run M)
      (max : ℕ)
      → size w.store ≤ max
      → size rest.store ≤ max
      → size (go_on r settings g w c rest).store ≤ max
  unfolding go_on
  go_on_store settings g w (true, events) rest max a b = a
  go_on_store settings g w (false, events) rest max a b = b

  -- Whatever PDUs and ticks the loop of the transmitter takes and whatever happens outside, over
  -- any store that keeps its promise: a window of at most MaxWindowSize requests holds at most
  -- MaxWindowSize requests afterwards.
  pub loop_bounded :
      (settings : Settings) (g : Globals) (s : M) (inputs : List (Input × WriteEnv))
      → size s ≤ window_size r settings.windowed_request_tracking
      → size (loop r settings g s inputs).store ≤ window_size r settings.windowed_request_tracking
  unfolding loop
  loop_bounded settings g s [] b = b
  loop_bounded settings g s ((received none, env) ∷ inputs) b = loop_bounded settings g s inputs b
  loop_bounded settings g s ((received (some p), env) ∷ inputs) b =
      let w = write_bounded settings env s p b in
      go_on_store settings g (write r settings env s p) _ _ _ w
        (loop_bounded settings g (write r settings env s p).store inputs w)
  loop_bounded settings g s ((ticked, env) ∷ inputs) b =
      let (c, g') = EnquireLink.new g in
      let w = write_bounded settings env s (Pdu.enquire_link c) b in
      go_on_store settings g' (write r settings env s (Pdu.enquire_link c)) _ _ _ w
        (loop_bounded settings g' (write r settings env s (Pdu.enquire_link c)).store inputs w)

-- Outside, all is well for the write of `p`: deadlines are set, contexts last, and all bytes go out.
pub record GoesWell (env : WriteEnv) (p : Pdu) : Type 0 where
  pub deadline : env.timeout_set ≡ none
  pub counted : env.length_ended ≡ false
  pub whole : env.wrote ≡ (length (marshal p).1, none)
  pub kept : env.set_ended ≡ false

abbrev pub whole_write {ℓ} : {M : Type ℓ} → M → Pdu → Written M
whole_write s p = record {
  pdu = (marshal p).0;
  n = length (marshal p).1;
  err = none;
  store = s;
  bytes = (marshal p).1;
}

pub no_deadline : (b : Bool) (o : Option Failure) → o ≡ none → (if b then o else none) ≡ none
no_deadline true o e = e
no_deadline false o e = refl

module _ {ℓ} {M : Type ℓ} (r : RequestStore M) where
  write_pdu_whole :
      (env : WriteEnv) (s : M) (p : Pdu) → GoesWell env p → write_pdu r env s p ≡ whole_write s p
  unfolding write_pdu
  write_pdu_whole env s p w =
      let all : take (length (marshal p).1) (marshal p).1 ≡ (marshal p).1 =
        rw append-nil at (take-append (marshal p).1 []) in
      rw (w.whole, all) refl

  -- A PDU that takes no place in a window is written whole.
  pub write-whole_write :
      (settings : Settings) (env : WriteEnv) (s : M) (p : Pdu)
      → GoesWell env p
      → (ltb 0 (window_size r settings.windowed_request_tracking) && is_allow_pdu p) ≡ false
      → write r settings env s p ≡ whole_write s p
  unfolding write write_now
  write-whole_write settings env s p w free =
      rw (no_deadline (is_positive settings.write_timeout) env.timeout_set w.deadline, free)
        (write_pdu_whole env s p w)

module _ {ℓ} {M : Type ℓ} (r : RequestStore M) (view : M → ℕ → Option Request) (size : M → ℕ)
    (h : IsStore r view size) where
  abbrev pub remembered : WriteEnv → Pdu → Request
  remembered env p = record { pdu = (marshal p).0; time_sent = env.now }

  keep-none :
      (w : Written M) (x : M × Option Failure) → x.1 ≡ none → keep r w x ≡ record w { store = x.0 }
  unfolding keep
  keep-none w (s, none) e = refl
  keep-none w (s, some f) e = cc

  remember_whole :
      (env : WriteEnv) (s : M) (p : Pdu)
      → GoesWell env p
      → remember r env p (write_pdu r env s p) env.wrote.1
        ≡ whole_write (r.set false (remembered env p) s).0 p
  unfolding remember
  remember_whole env s p w =
      let sent : write_pdu r env s p ≡ whole_write s p = write_pdu_whole r env s p w in
      let fine : env.wrote.1 ≡ none = ap (λ (x : ℕ × Option Failure). x.1) w.whole in
      let kept : r.set env.set_ended (remembered env p) s ≡ r.set false (remembered env p) s =
        ap (λ b. r.set b (remembered env p) s) w.kept in
      rw (sent, fine, kept) (keep-none (whole_write s p) _ (h.set-succeeds (remembered env p) s))

  pub counted_size : (b : Bool) (s : M) → b ≡ false → r.length b s ≡ (size s, none)
  counted_size b s e = rw e (h.length-size s)

  pub write-remembered :
      (settings : Settings) (env : WriteEnv) (s : M) (p : Pdu)
      → GoesWell env p
      → is_allow_pdu p ≡ true
      → size s < window_size r settings.windowed_request_tracking
      → write r settings env s p ≡ whole_write (r.set false (remembered env p) s).0 p
  unfolding write write_now write_tracked
  write-remembered settings env s p w allowed room =
      let max = window_size r settings.windowed_request_tracking in
      let positive : ltb 0 max ≡ true = lt→ltb 0 max (omega arith) in
      let fits : ltb (size s) max ≡ true = lt→ltb (size s) max room in
      rw
        (
          no_deadline (is_positive settings.write_timeout) env.timeout_set w.deadline,
          positive,
          allowed,
          counted_size env.length_ended s w.counted,
          fits,
        )
        (remember_whole env s p w)

  -- A request that would take a place in a window which is full is not written: write sends no
  -- byte, leaves the store, and gives ErrWindowsFull.
  pub write_window_full :
      (settings : Settings) (env : WriteEnv) (s : M) (p : Pdu)
      → env.timeout_set ≡ none
      → env.length_ended ≡ false
      → is_allow_pdu p ≡ true
      → 0 < window_size r settings.windowed_request_tracking
      → window_size r settings.windowed_request_tracking ≤ size s
      → write r settings env s p
        ≡ record { pdu = p; n = 0; err = some windows_full; store = s; bytes = [] }
  unfolding write write_now write_tracked
  write_window_full settings env s p deadline counted allowed positive full =
      let max = window_size r settings.windowed_request_tracking in
      rw
        (
          no_deadline (is_positive settings.write_timeout) env.timeout_set deadline,
          lt→ltb 0 max positive,
          allowed,
          counted_size env.length_ended s counted,
          ge→ltb (size s) max full,
        )
        refl
