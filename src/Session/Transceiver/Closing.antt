-- ===== src/Session/Transceiver/Closing.antt =====
-- How the halves of transceivable.go close each other, and what Close leaves.
use gosmpp.Prelude.{
  ℕ, suc, ◌+◌, ltb, ◌≡◌, refl, ap, ◌∙◌, sym, Bool, true, false, Bool-cases, inl, inr, List, [], ◌∷◌,
  ◌++◌, append_assoc, append-nil, Option, none, some, if◌then◌else◌, arith,
}
use gosmpp.Packet.{Pdu}
use gosmpp.Pdu.Unbind
use gosmpp.Session.Failure.{Failure}
use gosmpp.Session.Settings.{
  Settings, WindowedRequestTracking, State, Event, connection_issue, invalid_streaming,
  unbind_closing, explicit_closing, stopping_process_only, closes_conn,
}
use gosmpp.Session.Store.{Request, RequestStore}
use gosmpp.Session.Transmitter
use gosmpp.Session.Transmitter.{
  CloseEnv, notice, after_delete, delete_requests, drain_if, drain_window, write,
}
use gosmpp.Session.Receiver
use gosmpp.Session.Transceiver.{
  Transceiver, Outside, as_closed, notified, Half, output, input, tell, notify, close_out, close_in,
  out_on_closed, in_on_closed, close_half, transmitter_settings, receiver_settings,
}

-- How often OnClosed is called.
abbrev pub called : Option State → ℕ
called none = 0
called (some state) = 1

abbrev pub closings : List Event → ℕ
closings [] = 0
closings (e ∷ es) = called (as_closed e) + closings es

pub closings-append : (a b : List Event) → closings (a ++ b) ≡ closings a + closings b
closings-append [] b = omega arith
closings-append (e ∷ es) b = omega (arith, closings-append es b)

module _ {ℓ} {M : Type ℓ} (r : RequestStore M) (settings : Settings) where
  notice_quiet : (w : WindowedRequestTracking) (q : Request) → closings (notice r settings w q) ≡ 0
  unfolding notice
  notice_quiet w q = elim (Bool-cases w.on_close_pdu_request) [
    | inl e ↦ rw e refl
    | inr e ↦ rw e refl
  ]

  after_delete_quiet :
      (events : List Event) (x : M × Option Failure) (rest : M → M × List Event × Option Failure)
      → closings events ≡ 0
      → ((s : M) → closings (rest s).1 ≡ 0)
      → closings (after_delete r settings events x rest).1 ≡ 0
  unfolding after_delete
  after_delete_quiet events (s, some e) rest h k = h
  after_delete_quiet events (s, none) rest h k =
      omega (arith, closings-append events (rest s).1, h, k s)

  delete_requests_quiet :
      (w : WindowedRequestTracking) (ended : ℕ → Bool) (l : List Request) (s : M)
      → closings (delete_requests r settings w ended l s).1 ≡ 0
  unfolding delete_requests
  delete_requests_quiet w ended [] s = refl
  delete_requests_quiet w ended (q ∷ l) s =
      after_delete_quiet (notice r settings w q) _ _ (notice_quiet w q)
        (λ s'. delete_requests_quiet w ended l s')

  pub drain_window_quiet :
      (w : Option WindowedRequestTracking) (env : CloseEnv) (s : M) (e : Option Failure)
      → closings (drain_window r settings w env s e).1 ≡ 0
  unfolding drain_window drain_if
  drain_window_quiet none env s e = refl
  drain_window_quiet (some w) env s e = go (r.length env.length_ended s)
    where
      go : (x : ℕ × Option Failure) → closings (drain_if r settings w env s x).1 ≡ 0
      go (size, some e) = refl
      go (size, none) = elim (Bool-cases (ltb 0 size)) [
        | inl e ↦ rw e (delete_requests_quiet w env.delete_ended (r.list env.list_ended s) s)
        | inr e ↦ rw e refl
      ]

module _ {ℓ} {M : Type ℓ} (r : RequestStore M) (settings : Settings) (env : Outside) where
  -- The user's callbacks alone.
  abbrev pub add : List Event → Transceiver M → Transceiver M
  add es t = record t { events = t.events ++ es }

  notify-add :
      (f : State → Transceiver M → Transceiver M) (es : List Event) (t : Transceiver M)
      → closings es ≡ 0
      → notify r settings env f es t ≡ add es t
  unfolding notify
  notify-add f [] t h = ap (λ l. record t { events = l }) (sym (append-nil t.events))
  notify-add f (e ∷ es) t h = go (as_closed e) refl λ t' k. notify-add f es t' k
    where
      go :
          (o : Option State)
          → as_closed e ≡ o
          → ((t' : Transceiver M) → closings es ≡ 0 → notify r settings env f es t' ≡ add es t')
          → notify r settings env f es (notified r settings env f o e t) ≡ add (e ∷ es) t
      go (some state) is later = let one : 1 + closings es ≡ 0 = rw is at h in absurd (omega arith)
      go none is later =
          let none_closed : 0 + closings es ≡ 0 = rw is at h in
          later (record t { events = t.events ++ (e ∷ []) }) (omega arith)
          ∙ ap (λ l. record t { events = l }) (append_assoc t.events (e ∷ []) es)

  -- The transmitter that `close` has let in, before OnClosed is called.
  abbrev pub out_claimed : State → Transceiver M → Transceiver M
  out_claimed state t =
      let closed =
        Transmitter.close r (transmitter_settings settings) env.out_close t.globals state t.store in
      record t {
        out_alive = false;
        conn_open = if closes_conn state then false else t.conn_open;
        store = closed.store;
        globals = (Unbind.new t.globals).1;
        bytes = t.bytes ++ closed.bytes;
      }

  abbrev pub in_claimed : State → Transceiver M → Transceiver M
  in_claimed state t = record t {
    in_alive = false;
    conn_open = if closes_conn state then false else t.conn_open;
  }

  -- The requests that the closing transmitter hands back.
  abbrev pub drained : State → Transceiver M → List Event
  drained state t =
      let s =
        (write r (transmitter_settings settings) env.out_close.unbind t.store
          (Pdu.unbind (Unbind.new t.globals).0)).store in
      (drain_window r (transmitter_settings settings) settings.windowed_request_tracking
        env.out_close s (if closes_conn state then env.out_close.conn_closed else none)).1

  close_out-drained :
      (f : State → Transceiver M → Transceiver M) (state : State) (t : Transceiver M)
      → t.out_alive ≡ true
      → close_out r settings env f state t ≡ add (drained state t) (f state (out_claimed state t))
  unfolding close_out notify notified Transmitter.close transmitter_settings
  close_out-drained f state t alive = rw alive (
      notify-add f (drained state t) (f state (out_claimed state t)) (
        drain_window_quiet r (transmitter_settings settings) settings.windowed_request_tracking
          env.out_close _ _))

  close_in-claimed :
      (f : State → Transceiver M → Transceiver M) (state : State) (t : Transceiver M)
      → t.in_alive ≡ true
      → close_in r settings env f state t ≡ f state (in_claimed state t)
  unfolding close_in notify notified Receiver.close receiver_settings
  close_in-claimed f state t alive = rw alive refl

  -- What is left of a half that is closed in a state which its OnClosed does not act on.
  abbrev pub quiet : Half → State → Transceiver M → Transceiver M
  quiet output state t = if t.out_alive then add (drained state t) (out_claimed state t) else t
  quiet input state t = if t.in_alive then in_claimed state t else t

  close_out-quiet :
      (f : State → Transceiver M → Transceiver M) (state : State) (t : Transceiver M)
      → ((t' : Transceiver M) → f state t' ≡ t')
      → close_out r settings env f state t ≡ quiet output state t
  unfolding close_out
  close_out-quiet f state t still = elim (Bool-cases t.out_alive) [
    | inl e ↦
        close_out-drained f state t e
        ∙ rw e (ap (add (drained state t)) (still (out_claimed state t)))
    | inr e ↦ rw e refl
  ]

  close_in-quiet :
      (f : State → Transceiver M → Transceiver M) (state : State) (t : Transceiver M)
      → ((t' : Transceiver M) → f state t' ≡ t')
      → close_in r settings env f state t ≡ quiet input state t
  unfolding close_in
  close_in-quiet f state t still = elim (Bool-cases t.in_alive) [
    | inl e ↦ close_in-claimed f state t e ∙ rw e (still (in_claimed state t))
    | inr e ↦ rw e refl
  ]

  -- A half that is closed in a state of its own closes the other half and tells the user.
  abbrev pub loud : Half → State → Transceiver M → Transceiver M
  loud output state t =
      if t.out_alive
      then add (drained state t)
          (tell r settings env state (quiet input explicit_closing (out_claimed state t)))
      else t
  loud input state t =
      if t.in_alive
      then tell r settings env state (quiet output explicit_closing (in_claimed state t))
      else t

  explicit_quiet :
      (n : ℕ) (half : Half) (t : Transceiver M)
      → close_half r settings env (suc n) half explicit_closing t ≡ quiet half explicit_closing t
  unfolding close_half in_on_closed out_on_closed
  explicit_quiet n output t = close_out-quiet _ explicit_closing t (λ t'. refl)
  explicit_quiet n input t = close_in-quiet _ explicit_closing t (λ t'. refl)

  out_loud :
      (n : ℕ) (t : Transceiver M)
      → close_half r settings env (suc (suc n)) output connection_issue t
        ≡ loud output connection_issue t
  unfolding close_half close_out out_on_closed
  out_loud n t = elim (Bool-cases t.out_alive) [
    | inl e ↦
        close_out-drained _ connection_issue t e
        ∙ rw e (
            ap (λ u. add (drained connection_issue t) (tell r settings env connection_issue u))
              (explicit_quiet n input (out_claimed connection_issue t)))
    | inr e ↦ rw e refl
  ]

  in_loud :
      (n : ℕ) (state : State) (t : Transceiver M)
      → ((g : State → Transceiver M → Transceiver M) (t' : Transceiver M)
          → in_on_closed r settings env g state t'
            ≡ tell r settings env state (g explicit_closing t'))
      → close_half r settings env (suc (suc n)) input state t ≡ loud input state t
  unfolding close_half close_in
  in_loud n state t told = elim (Bool-cases t.in_alive) [
    | inl e ↦
        close_in-claimed _ state t e
        ∙ rw e (
            told (close_half r settings env (suc n) output) (in_claimed state t)
            ∙ ap (tell r settings env state) (explicit_quiet n output (in_claimed state t)))
    | inr e ↦ rw e refl
  ]

  -- The states in which a half closes by itself.
  abbrev pub is_own : Half → State → Bool
  is_own output connection_issue = true
  is_own input invalid_streaming = true
  is_own input unbind_closing = true
  is_own _ _ = false

  abbrev pub closed_half : Half → State → Transceiver M → Transceiver M
  closed_half half state t = if is_own half state then loud half state t else quiet half state t

  pub close_half-closed_half :
      (n : ℕ) (half : Half) (state : State) (t : Transceiver M)
      → close_half r settings env (suc (suc n)) half state t ≡ closed_half half state t
  unfolding close_half out_on_closed in_on_closed
  close_half-closed_half n output explicit_closing t = explicit_quiet (suc n) output t
  close_half-closed_half n output stopping_process_only t = close_out-quiet _ _ t (λ t'. refl)
  close_half-closed_half n output invalid_streaming t = close_out-quiet _ _ t (λ t'. refl)
  close_half-closed_half n output connection_issue t = out_loud n t
  close_half-closed_half n output unbind_closing t = close_out-quiet _ _ t (λ t'. refl)
  close_half-closed_half n input explicit_closing t = explicit_quiet (suc n) input t
  close_half-closed_half n input stopping_process_only t = close_in-quiet _ _ t (λ t'. refl)
  close_half-closed_half n input invalid_streaming t = in_loud n _ t (λ g t'. refl)
  close_half-closed_half n input connection_issue t = close_in-quiet _ _ t (λ t'. refl)
  close_half-closed_half n input unbind_closing t = in_loud n _ t (λ g t'. refl)

  pub close_half_enough :
      (n : ℕ) (half : Half) (state : State) (t : Transceiver M)
      → close_half r settings env (suc (suc n)) half state t
        ≡ close_half r settings env 2 half state t
  close_half_enough n half state t =
      close_half-closed_half n half state t ∙ sym (close_half-closed_half 0 half state t)
