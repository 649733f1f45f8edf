-- ===== src/NoPanic/Streams.antt =====
-- Parse of pdu/PDU.go on any stream of bytes.
use gosmpp.Prelude.{
  ℕ, ◌≡◌, ◌≢◌, ◌==◌, refl, ◌⊎◌, inl, inr, length, true, [], Bool-cases, leb-cases, ◌-◌,
}
use gosmpp.Outcome.{Bytes, Error, Outcome, ok, err}
use gosmpp.Globals.{Globals}
use gosmpp.Buffer.Safety.{IsBytes, Returned, take-IsBytes, is_returned}
use gosmpp.Header.{parse_header}
use gosmpp.Base.{aside}
use gosmpp.CommandId
use gosmpp.Packet.{Pdu}
use gosmpp.Wire.{unmarshal}
use gosmpp.Parse.{parse, bad_length, unmarshal_created}
use gosmpp.Parse.Framing.{
  parse-frame, parse_no_header, parse-bad_length, bad_length-OutOfBounds, parse_cut_body, end_error,
}
use gosmpp.NoPanic.Packets.{pdu-Safe, HasMap, create_pdu_from_cmd_id-HasMap}

end_error_returned : (n : ℕ) → is_returned (end_error n) ≡ true
end_error_returned n = elim (Bool-cases (n == 0)) [ inl e ↦ rw e refl | inr e ↦ rw e refl ]

aside-Returned : (o : Outcome Pdu) (s : Bytes) → Returned o → Returned (aside o s)
unfolding aside
aside-Returned (ok p b) s r = tt
aside-Returned (err e b) s r = r

unmarshal_created-Returned :
    (c : (Error ⊎ Pdu) × Globals) (b s : Bytes)
    → HasMap c
    → IsBytes b
    → Returned (unmarshal_created c b s).0
unfolding unmarshal_created
unmarshal_created-Returned (inl e, g) b s m h = m
unmarshal_created-Returned (inr p, g) b s m h =
    aside-Returned (unmarshal p b) s ((pdu-Safe p [] m).returned b h)

-- On any stream of bytes whose front does not name a query_sm, Parse ends with a PDU or with an
-- error that it returns: no write to a nil map, no slice out of range, and no loop out of fuel.
pub parse-Returned :
    (g : Globals) (s : Bytes)
    → IsBytes s
    → (parse_header s).command_id ≢ CommandId.query_sm
    → Returned (parse g s).0
parse-Returned g s h other = elim (leb-cases 16 (length s)) [
  | inr (_, short) ↦ rw (parse_no_header g s short) (end_error_returned (length s))
  | inl (_, there) ↦ elim (Bool-cases (bad_length (parse_header s).command_length)) [
    | inl bad ↦ rw (parse-bad_length g s there (bad_length-OutOfBounds _ bad)) refl
    | inr good ↦ elim (leb-cases (parse_header s).command_length (length s)) [
      | inr (_, cut) ↦ rw (parse_cut_body g s there good cut) (end_error_returned (length s - 16))
      | inl (_, whole) ↦
          rw
            (parse-frame g s
              (record { header_there = there; length_valid = good; body_there = whole }))
            (unmarshal_created-Returned _ _ _
              (create_pdu_from_cmd_id-HasMap g (parse_header s).command_id other)
              (take-IsBytes (parse_header s).command_length s h))
    ]
  ]
]
