-- ===== src/Parse.antt =====
-- Parse of pdu/PDU.go: one PDU from a stream.
pub mod Framing
pub mod RoundTrip
use gosmpp.Prelude.{
  ℕ, ◌-◌, Bool, ◌||◌, leb, ltb, ◌==◌, if◌then◌else◌, length, take, drop, ◌⊎◌, inl, inr, ◌++◌, [],
}
use gosmpp.Outcome.{Bytes, Error, Outcome, Reader, ok, err, eof, unexpected_eof, invalid_pdu}
use gosmpp.Buffer.{is_negative32}
use gosmpp.Globals.{Globals}
use gosmpp.Header.{Header, parse_header}
use gosmpp.Base
use gosmpp.Packet.{Pdu}
use gosmpp.Wire.{unmarshal}
use gosmpp.Factory.{create_pdu_from_cmd_id}

-- io.ReadFull: `n` bytes of the stream, or an error at its end.
unfoldable pub read_full : ℕ → Reader Bytes
read_full n s =
    if leb n (length s)
    then ok (take n s) (drop n s)
    else if length s == 0
    then err eof []
    else err unexpected_eof []

-- data.MAX_PDU_LEN
abbrev pub max_pdu_len : ℕ
max_pdu_len = 65536

-- `header.CommandLength < 16 || header.CommandLength > data.MAX_PDU_LEN`
abbrev pub bad_length : ℕ → Bool
bad_length n = is_negative32 n || ltb n 16 || ltb max_pdu_len n

-- The bytes of the PDU are read in a buffer of their own; the stream is left behind them.
unfoldable pub unmarshal_created : (Error ⊎ Pdu) × Globals → Bytes → Bytes → Outcome Pdu × Globals
unmarshal_created (inl e, g) bytes s = (err e s, g)
unmarshal_created (inr p, g) bytes s = (Base.aside (unmarshal p bytes) s, g)

unfoldable pub parse_body : Globals → Header → Bytes → Outcome Bytes → Outcome Pdu × Globals
parse_body g header header_bytes (ok body_bytes s) =
    unmarshal_created (create_pdu_from_cmd_id g header.command_id) (header_bytes ++ body_bytes) s
parse_body g header header_bytes (err e s) = (err e s, g)

unfoldable pub parse_header_bytes : Globals → Outcome Bytes → Outcome Pdu × Globals
parse_header_bytes g (err e s) = (err e s, g)
parse_header_bytes g (ok header_bytes s) =
    let header = parse_header header_bytes in
    if bad_length header.command_length
    then (err invalid_pdu s, g)
    else parse_body g header header_bytes (read_full (header.command_length - 16) s)

-- Parse from a stream that gives these bytes and then ends.
unfoldable pub parse : Globals → Bytes → Outcome Pdu × Globals
parse g s = parse_header_bytes g (read_full 16 s)
