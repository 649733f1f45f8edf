-- ===== src/Parse/RoundTrip.antt =====
-- Parse of pdu/PDU.go on what Marshal wrote, for every PDU type.
use gosmpp.Prelude.{
  ℕ, ◌≤◌, ◌≡◌, ap, sym, ◌∙◌, [], ◌++◌, append-nil, length, length-append, take-append, drop-append,
  arith, false, inr,
}
use gosmpp.Outcome.{Bytes, ok}
use gosmpp.Globals.{Globals}
use gosmpp.Header.{Header, parse_header}
use gosmpp.Base.{aside}
use gosmpp.Packet.{Pdu, base_of}
use gosmpp.Wire.{marshal, unmarshal}
use gosmpp.Wire.Shape.{length-marshal-ge, arrived_id}
use gosmpp.Wire.RoundTrip.{IsSendable, Fresh, arrived, pdu-Decodes}
use gosmpp.Wire.Framing.{pdu-IsFrameOf, IsFrameOf}
use gosmpp.Factory.{create_pdu_from_cmd_id}
use gosmpp.Factory.Typed.{IsTyped}
use gosmpp.Factory.Created.{create_pdu_from_cmd_id-Creates}
use gosmpp.Parse.{parse, unmarshal_created, bad_length}
use gosmpp.Parse.Framing.{HasFrame, parse-frame, parse_header-append}

good_length : (n : ℕ) → 16 ≤ n → n ≤ 65536 → bad_length n ≡ false
good_length n h k = ground arith

module _ {p0 p : Pdu} (fresh : Fresh p0 p) (h : IsSendable p)
    (short : length (marshal p).1 ≤ 65536) where
  -- The bytes are a frame: their header is that of the PDU that arrives.
  wire-IsFrameOf : IsFrameOf (marshal p).1 (base_of (arrived p)) []
  wire-IsFrameOf =
      pdu-IsFrameOf p0 (marshal p).1 (rw append-nil at ((pdu-Decodes fresh h).apply []))

  wire_header : (rest : Bytes) → parse_header ((marshal p).1 ++ rest) ≡ (base_of (arrived p)).header
  wire_header rest =
      parse_header-append (marshal p).1 rest (length-marshal-ge p) ∙ sym wire-IsFrameOf.header_first

  wire_length :
      (rest : Bytes) → (parse_header ((marshal p).1 ++ rest)).command_length ≡ length (marshal p).1
  wire_length rest =
      ap (λ (c : Header). c.command_length) (wire_header rest) ∙ omega (arith, wire-IsFrameOf.exact)

  wire-HasFrame : (rest : Bytes) → HasFrame ((marshal p).1 ++ rest)
  wire-HasFrame rest =
      let total = length-append (marshal p).1 rest in
      record {
        header_there = omega (arith, total, length-marshal-ge p);
        length_valid = rw (wire_length rest) (good_length _ (length-marshal-ge p) short);
        body_there = rw (wire_length rest) (omega (arith, total));
      }

  parse_fresh :
      (g g' : Globals) (rest : Bytes)
      → create_pdu_from_cmd_id g (base_of p).header.command_id ≡ (inr p0, g')
      → parse g ((marshal p).1 ++ rest) ≡ (ok (arrived p) rest, g')
  unfolding unmarshal_created aside
  parse_fresh g g' rest made =
      let id : (parse_header ((marshal p).1 ++ rest)).command_id ≡ (base_of p).header.command_id =
        ap (λ (c : Header). c.command_id) (wire_header rest) ∙ arrived_id p in
      let read : unmarshal p0 (marshal p).1 ≡ ok (arrived p) [] =
        rw append-nil at ((pdu-Decodes fresh h).apply []) in
      parse-frame g ((marshal p).1 ++ rest) (wire-HasFrame rest)
      ∙ rw (
        wire_length rest,
        id,
        made,
        take-append (marshal p).1 rest,
        drop-append (marshal p).1 rest,
        read,
      )

-- For every PDU of the 23 types with the command identifier, the map and the data_coding byte of
-- its type, whose fields fit their places on the wire (the system_id of a bind_resp only where it
-- is read), and whose bytes are at most 65536: Parse of those bytes, followed by anything, leaves
-- exactly what followed and gives the PDU that arrives, with all the fields sent except the text
-- of a short message beside its data, the encoding as its number names it, and of a destination
-- what its flag says.
pub parse-marshal :
    (g : Globals) (p : Pdu) (rest : Bytes)
    → IsTyped p
    → IsSendable p
    → length (marshal p).1 ≤ 65536
    → (g' : Globals) × (parse g ((marshal p).1 ++ rest) ≡ (ok (arrived p) rest, g'))
parse-marshal g p rest typed h short =
    let (p0, g', made, fresh) = create_pdu_from_cmd_id-Creates g p typed in
    (g', parse_fresh fresh h short g g' rest made)

-- Parse keeps the package variables that the creation of the PDU leaves.
pub parse-marshal_created :
    (g : Globals) (p : Pdu) (rest : Bytes)
    → IsTyped p
    → IsSendable p
    → length (marshal p).1 ≤ 65536
    → parse g ((marshal p).1 ++ rest)
      ≡ (ok (arrived p) rest, (create_pdu_from_cmd_id g (base_of p).header.command_id).1)
parse-marshal_created g p rest typed h short =
    let (p0, g', made, fresh) = create_pdu_from_cmd_id-Creates g p typed in
    rw made (parse_fresh fresh h short g g' rest made)
