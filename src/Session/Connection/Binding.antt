-- ===== src/Session/Connection/Binding.antt =====
-- When `connect` of connect.go binds and when it closes the connection.
use gosmpp.Prelude.{
  suc, ◌≡◌, ◌≢◌, ◌⊎◌, inl, inr, refl, ap, ◌∙◌, sym, true, false, Bool-cases, List, [], ◌∷◌, ◌++◌,
  append_assoc, append-nil, take-append, take, Option, none, some, length, ◌==◌, ==_iff, arith,
}
use gosmpp.Outcome.{Bytes, Error, ok, err}
use gosmpp.Buffer.Safety.{is_returned}
use gosmpp.Globals.{Globals}
use gosmpp.Factory.{create_pdu_from_cmd_id}
use gosmpp.Pdu.BindRequest.{BindRequest}
use gosmpp.Pdu.BindResp
use gosmpp.Pdu.BindResp.{BindResp}
use gosmpp.Base
use gosmpp.Packet.{Pdu, base_of}
use gosmpp.Wire.{marshal}
use gosmpp.Wire.RoundTrip.{arrived}
use gosmpp.Parse.{parse}
use gosmpp.Parse.RoundTrip.{parse-marshal_created}
use gosmpp.Session.Failure.{Failure, codec, bind_error}
use gosmpp.Session.Transmitter.Order.{wires}
use gosmpp.Session.Receiver.Stream.{IsReadable, AllReadable}
use gosmpp.Session.Connection.{
  Peer, Connection, Connected, Awaited, connect, dialled, requested, answered, await, as_bind_resp,
}
use gosmpp.Session.Connection.Waiting.{Awaits, await-Awaits_unique}

as_bind_resp-arrived : (p : Pdu) → as_bind_resp p ≡ none → as_bind_resp (arrived p) ≡ none
as_bind_resp-arrived (Pdu.alert_notification c) other = refl
as_bind_resp-arrived (Pdu.bind_request c) other = refl
as_bind_resp-arrived (Pdu.bind_resp c) other = cc
as_bind_resp-arrived (Pdu.cancel_sm c) other = refl
as_bind_resp-arrived (Pdu.cancel_sm_resp c) other = refl
as_bind_resp-arrived (Pdu.data_sm c) other = refl
as_bind_resp-arrived (Pdu.data_sm_resp c) other = refl
as_bind_resp-arrived (Pdu.deliver_sm c) other = refl
as_bind_resp-arrived (Pdu.deliver_sm_resp c) other = refl
as_bind_resp-arrived (Pdu.enquire_link c) other = refl
as_bind_resp-arrived (Pdu.enquire_link_resp c) other = refl
as_bind_resp-arrived (Pdu.generic_nack c) other = refl
as_bind_resp-arrived (Pdu.outbind c) other = refl
as_bind_resp-arrived (Pdu.query_sm c) other = refl
as_bind_resp-arrived (Pdu.query_sm_resp c) other = refl
as_bind_resp-arrived (Pdu.replace_sm c) other = refl
as_bind_resp-arrived (Pdu.replace_sm_resp c) other = refl
as_bind_resp-arrived (Pdu.submit_multi c) other = refl
as_bind_resp-arrived (Pdu.submit_multi_resp c) other = refl
as_bind_resp-arrived (Pdu.submit_sm c) other = refl
as_bind_resp-arrived (Pdu.submit_sm_resp c) other = refl
as_bind_resp-arrived (Pdu.unbind c) other = refl
as_bind_resp-arrived (Pdu.unbind_resp c) other = refl

abbrev pub NoneBinds : List Pdu → Type 0
NoneBinds [] = Unit
NoneBinds (p ∷ ps) = (as_bind_resp p ≡ none) × NoneBinds ps

-- The bind_resp with the command length that Marshal gives it.
abbrev pub framed : BindResp → BindResp
framed c = record c { base = (BindResp.marshal c).0.base }

wires-Awaits :
    (g : Globals) (ps : List Pdu) (c : BindResp) (rest : Bytes)
    → AllReadable ps
    → NoneBinds ps
    → IsReadable (Pdu.bind_resp c)
    → (g' : Globals) × Awaits g
        (wires ps ++ ((marshal (Pdu.bind_resp c)).1 ++ rest))
        (ok (framed c) rest, g')
unfolding wires
wires-Awaits g [] c rest h none_binds h' = (
  _,
  Awaits.bound (parse-marshal_created g (Pdu.bind_resp c) rest h'.typed h'.sendable h'.short) refl,
)
wires-Awaits g (p ∷ ps) c rest (h, hs) (other, others) h' =
    let next = (create_pdu_from_cmd_id g (base_of p).header.command_id).1 in
    let (g', later) = wires-Awaits next ps c rest hs others h' in
    (
      g',
      Awaits.skipped
          (ap (λ s. parse g s) (append_assoc (marshal p).1 (wires ps) _)
            ∙ parse-marshal_created g p _ h.typed h.sendable h.short)
          (as_bind_resp-arrived p other) later,
    )

-- A peer that is reached and takes the whole bind request.
pub record Listens (peer : Peer) (bind_req : BindRequest) : Type 0 where
  pub reached : peer.dialled ≡ none
  pub whole : peer.wrote ≡ (length (marshal (Pdu.bind_request bind_req)).1, none)

connect-answered :
    (g : Globals) (peer : Peer) (bind_req : BindRequest) (a : Awaited)
    → Listens peer bind_req
    → Awaits g peer.stream a
    → connect g peer bind_req
      ≡ answered
          (record { system_id = []; stream = peer.stream })
          (marshal (Pdu.bind_request bind_req)).1
          a
unfolding connect dialled requested
connect-answered g peer bind_req a listens run =
    let all : take (length (marshal (Pdu.bind_request bind_req)).1)
          (marshal (Pdu.bind_request bind_req)).1
        ≡ (marshal (Pdu.bind_request bind_req)).1 =
      rw append-nil at (take-append (marshal (Pdu.bind_request bind_req)).1 []) in
    rw
      (
        listens.reached,
        listens.whole,
        all,
        await-Awaits_unique (suc (length peer.stream)) (omega arith) run,
      )
      refl

module _ (g : Globals) (peer : Peer) (bind_req : BindRequest) (ps : List Pdu) (c : BindResp)
    (rest : Bytes) (listens : Listens peer bind_req)
    (sends : peer.stream ≡ wires ps ++ ((marshal (Pdu.bind_resp c)).1 ++ rest)) (h : AllReadable ps)
    (others : NoneBinds ps) (readable : IsReadable (Pdu.bind_resp c)) where
  -- From a peer that is reached and takes the whole bind request, and that sends PDUs of any types
  -- but bind_resp, then a bind_resp of status 0 and anything else, if each of these PDUs and the
  -- bind_resp has the command identifier, the map of optional parameters (nil for a query_sm) and
  -- the data_coding byte of its type, fits its places on the wire and takes at most 65536 bytes,
  -- connect gives the connection with the system_id of that bind_resp and exactly what followed it
  -- still to read.
  pub connect-accepted :
      c.base.header.command_status ≡ 0
      → (g' : Globals) × (connect g peer bind_req ≡ record {
        conn = some (record { system_id = c.system_id; stream = rest });
        err = none;
        closed = false;
        sent = (marshal (Pdu.bind_request bind_req)).1;
        globals = g';
      })
  unfolding answered BindResp.marshal Base.marshal
  connect-accepted good =
      let (g', run) = wires-Awaits g ps c rest h others readable in
      let all = connect-answered g peer bind_req _ listens (rw (sym sends) at run) in
      (g', all ∙ rw good refl)

  pub connect-refused :
      c.base.header.command_status ≢ 0
      → (g' : Globals) × (connect g peer bind_req ≡ record {
        conn = some (record { system_id = []; stream = rest });
        err = some (bind_error c.base.header.command_status);
        closed = true;
        sent = (marshal (Pdu.bind_request bind_req)).1;
        globals = g';
      })
  unfolding answered BindResp.marshal Base.marshal
  connect-refused bad =
      let (g', run) = wires-Awaits g ps c rest h others readable in
      let all = connect-answered g peer bind_req _ listens (rw (sym sends) at run) in
      let status : (c.base.header.command_status == 0) ≡ false =
        elim (Bool-cases (c.base.header.command_status == 0)) [
          | inl e ↦ absurd (bad ((==_iff c.base.header.command_status 0).0 e))
          | inr e ↦ e
        ] in
      (g', all ∙ rw status refl)

-- No error, an error with the connection closed, or a panic of Parse.
abbrev pub Settled : Connected → Type 0
Settled r =
    ((r.err ≡ none) × (r.closed ≡ false))
    ⊎ ((r.err ≢ none) × (r.closed ≡ true))
    ⊎ ((e : Error) × (r.err ≡ some (codec e)) × (is_returned e ≡ false))

answered-Settled : (c : Connection) (sent : Bytes) (a : Awaited) → Settled (answered c sent a)
unfolding answered
answered-Settled c sent (err e s, g) = elim (Bool-cases (is_returned e)) [
  | inl good ↦ inr (inl (λ p. cc, good))
  | inr bad ↦ inr (inr (e, refl, bad))
]
answered-Settled c sent (ok resp s, g) = elim (Bool-cases (resp.base.header.command_status == 0)) [
  | inl good ↦ rw good (inl (refl, refl))
  | inr bad ↦ rw bad (inr (inl (λ p. cc, refl)))
]

-- Once the dialer has given a connection, connect ends without an error and with the connection
-- open, with an error and the connection closed, or with a panic of Parse.
pub connect-Settled :
    (g : Globals) (peer : Peer) (bind_req : BindRequest)
    → peer.dialled ≡ none
    → Settled (connect g peer bind_req)
unfolding connect dialled requested
connect-Settled g peer bind_req reached = rw reached (after peer.wrote.1)
  where
    after :
        (o : Option Failure)
        → Settled (
            requested g
              (record { system_id = []; stream = peer.stream })
              (take peer.wrote.0 (marshal (Pdu.bind_request bind_req)).1)
              o)
    after none =
        answered-Settled (record { system_id = []; stream = peer.stream })
          (take peer.wrote.0 (marshal (Pdu.bind_request bind_req)).1)
          (await (suc (length peer.stream)) g peer.stream)
    after (some e) = inr (inl (λ p. cc, refl))
