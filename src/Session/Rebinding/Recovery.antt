-- ===== src/Session/Rebinding/Recovery.antt =====
-- That rebind of session.go comes to an end with a new transceiver, and what Close does meanwhile.
use gosmpp.Prelude.{
  ◌≡◌, refl, ap, ◌∙◌, Bool, true, false, List, [], ◌∷◌, ◌++◌, Option, none, some, if◌then◌else◌,
}
use gosmpp.Globals.{Globals}
use gosmpp.Session.Failure.{Failure}
use gosmpp.Session.Settings.{Event, on_rebinding_error, on_rebind}
use gosmpp.Session.Store.{RequestStore}
use gosmpp.Session.Connection.{Connector, connect_with}
use gosmpp.Session.Transceiver
use gosmpp.Session.Transceiver.{Outside, new_transceivable}
use gosmpp.Session.Rebinding.{
  Session, Attempt, close_bound, close, close_if, bind_again, try_bind, retry, rebind,
}

-- Each round fails with its error and leaves the package variables of the next, and nobody closes
-- the session.
pub data Fails (c : Connector) : List Attempt → Globals → List Failure → Globals → Type 0 where
  done : {g : Globals} → Fails c [] g [] g
  next :
      {a : Attempt} {attempts : List Attempt} {g g' : Globals} {e : Failure} {es : List Failure}
      → a.closed_before ≡ false
      → a.closed_meanwhile ≡ false
      → (connect_with g a.peer c).err ≡ some e
      → Fails c attempts (connect_with g a.peer c).globals es g'
      → Fails c (a ∷ attempts) g (e ∷ es) g'

-- What the user hears of the errors.
abbrev pub told : Bool → List Failure → List Event
told b [] = []
told b (e ∷ es) = (if b then on_rebinding_error e ∷ [] else []) ++ told b es

module _ {ℓ} {M : Type ℓ} (r : RequestStore M) (env : Outside) where
  -- The session after rounds that failed.
  abbrev heard : List Failure → Globals → Session M → Session M
  heard es g s = record s {
    trx = record s.trx { globals = g };
    events = s.events ++ told s.settings.on_rebinding_error es;
  }

  if_true {κ} : {A : Type κ} (b : Bool) (x y : A) → b ≡ true → (if b then x else y) ≡ x
  if_true b x y e = rw e refl

  -- The session that has bound again.
  abbrev pub recovered : List Failure → Globals → Session M → Session M
  recovered es g s = record s {
    trx = new_transceivable g s.trx.store;
    rebinding = false;
    events =
        (s.events ++ told s.settings.on_rebinding_error es)
        ++ (if s.settings.on_rebind then on_rebind ∷ [] else []);
  }

  if_false {κ} : {A : Type κ} (b : Bool) (x y : A) → b ≡ false → (if b then x else y) ≡ y
  if_false b x y e = rw e refl

  -- A session that is closed while its connection is open, and that closing again leaves as it is.
  pub record Leaks (s : Session M) : Type ℓ where
    pub closed : s.alive ≡ false
    pub bound : s.trx.alive ≡ true
    pub connected : s.trx.conn_open ≡ true
    pub stays : close r env s ≡ (s, none)

  retry-Leaks :
      (s : Session M) (rest : List Attempt) (a : Attempt)
      → s.alive ≡ true
      → a.closed_before ≡ false
      → a.closed_meanwhile ≡ true
      → (connect_with s.trx.globals a.peer s.connector).err ≡ none
      → Leaks (retry r env (a ∷ rest) s)
  unfolding retry try_bind bind_again close_if close close_bound new_transceivable
  retry-Leaks s rest a alive before meanwhile good =
      let conn = connect_with s.trx.globals a.peer s.connector in
      let ended = (close r env s).0 in
      let closed : ended.alive ≡ false =
        ap (λ (x : Session M × Option Failure). x.0.alive) (if_true s.alive _ (s, none) alive) in
      let result : retry r env (a ∷ rest) s ≡ bind_again r env conn none ended (retry r env rest) =
        ap (λ b. try_bind r env a (close_if r env b s) (retry r env rest)) before
        ∙ if_true s.alive _ s alive
        ∙ ap (λ b. bind_again r env conn conn.err (close_if r env b s) (retry r env rest)) meanwhile
        ∙ ap (λ o. bind_again r env conn o ended (retry r env rest)) good in
      rw result (record {
        closed = closed;
        bound = refl;
        connected = refl;
        stays =
            if_false ended.alive _ (bind_again r env conn none ended (retry r env rest), none)
              closed;
      })

  -- If the session is closed while a round of rebind binds, then rebind leaves the closed session
  -- with a new transceiver, alive and with an open connection, which another Close does not close.
  pub rebind-Leaks :
      (s : Session M) (rest : List Attempt) (a : Attempt)
      → s.alive ≡ true
      → s.rebinding ≡ false
      → a.closed_before ≡ false
      → a.closed_meanwhile ≡ true
      → (connect_with (Transceiver.close r s.settings env s.trx).0.globals a.peer s.connector).err
        ≡ none
      → Leaks (rebind r env (a ∷ rest) s)
  unfolding rebind close_bound
  rebind-Leaks s rest a alive free before meanwhile good =
      let t = (Transceiver.close r s.settings env s.trx).0 in
      let entered : rebind r env (a ∷ rest) s
          ≡ retry r env (a ∷ rest) (record s { trx = t; rebinding = true }) =
        if_false s.rebinding s _ free in
      rw entered
        (retry-Leaks (record s { trx = t; rebinding = true }) rest a alive before meanwhile good)
