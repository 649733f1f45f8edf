-- ===== src/Session/Connection/Waiting.antt =====
-- The loop of `connect` in connect.go that waits for the bind_resp.
use gosmpp.Prelude.{ℕ, zero, suc, ◌<◌, ◌≡◌, refl, ap, Option, none, some, length, arith}
use gosmpp.Outcome.{Bytes, Error, Outcome, ok, err}
use gosmpp.Globals.{Globals}
use gosmpp.Pdu.BindResp.{BindResp}
use gosmpp.Packet.{Pdu}
use gosmpp.Parse.{parse}
use gosmpp.Parse.Framing.{parse-ok}
use gosmpp.Session.Connection.{Awaited, await, await_next, await_pdu, as_bind_resp}

-- The runs of the loop that end: any number of PDUs of other types, and then a bind_resp or an error.
pub data Awaits : Globals → Bytes → Awaited → Type 0 where
  failed :
      {g g' : Globals} {s rest : Bytes} {e : Error}
      → parse g s ≡ (err e rest, g')
      → Awaits g s (err e rest, g')
  bound :
      {g g' : Globals} {s rest : Bytes} {p : Pdu} {c : BindResp}
      → parse g s ≡ (ok p rest, g')
      → as_bind_resp p ≡ some c
      → Awaits g s (ok c rest, g')
  skipped :
      {g g' : Globals} {s rest : Bytes} {p : Pdu} {a : Awaited}
      → parse g s ≡ (ok p rest, g')
      → as_bind_resp p ≡ none
      → Awaits g' rest a
      → Awaits g s a

shorter :
    (g g' : Globals) (s rest : Bytes) (p : Pdu)
    → parse g s ≡ (ok p rest, g')
    → length rest < length s
shorter g g' s rest p e =
    let (_, least, _, _, total) = parse-ok g s (ap (λ (r : Outcome Pdu × Globals). r.0) e) in
    omega arith

Awaits-await_pdu :
    {g g' : Globals} {s rest : Bytes} {p : Pdu} (next : Globals → Bytes → Awaited)
    → parse g s ≡ (ok p rest, g')
    → Awaits g' rest (next g' rest)
    → (o : Option BindResp) → as_bind_resp p ≡ o
    → Awaits g s (await_pdu o g' rest next)
unfolding await_pdu
Awaits-await_pdu next e later (some c) is = Awaits.bound e is
Awaits-await_pdu next e later none is = Awaits.skipped e is later

-- On any bytes that the peer sends the loop of connect, with more fuel than there are bytes, ends
-- in a run of its own: any number of PDUs of other types, and then a bind_resp or an error of
-- Parse.
pub await-Awaits : (n : ℕ) (g : Globals) (s : Bytes) → length s < n → Awaits g s (await n g s)
unfolding await await_next
await-Awaits zero g s h = absurd (omega arith)
await-Awaits (suc n) g s h =
    step (parse g s) refl λ g' rest p read.
      let less = shorter g g' s rest p read in await-Awaits n g' rest (omega arith)
  where
    step :
        (o : Outcome Pdu × Globals)
        → parse g s ≡ o
        → ((g' : Globals) (rest : Bytes) (p : Pdu)
            → parse g s ≡ (ok p rest, g')
            → Awaits g' rest (await n g' rest))
        → Awaits g s (await_next o (await n))
    step (err e rest, g') read later = Awaits.failed read
    step (ok p rest, g') read later =
        Awaits-await_pdu (await n) read (later g' rest p read) (as_bind_resp p) refl

-- The loop has one end: whatever run there is, enough fuel finds it.
pub await-Awaits_unique :
    (n : ℕ) {g : Globals} {s : Bytes} {a : Awaited} → length s < n → Awaits g s a → await n g s ≡ a
unfolding await await_next await_pdu
await-Awaits_unique zero h run = absurd (omega arith)
await-Awaits_unique (suc n) h (Awaits.failed read) = rw read refl
await-Awaits_unique (suc n) h (Awaits.bound read is) = rw (read, is) refl
await-Awaits_unique (suc n) h (Awaits.skipped {g} {g'} {s} {rest} {p} read is later) =
    let less = shorter g g' s rest p read in
    rw (read, is) (await-Awaits_unique n (omega arith) later)
