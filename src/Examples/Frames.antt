-- ===== src/Examples/Frames.antt =====
-- Whole PDUs: the submit_sm of the examples, a bind and short streams.
use gosmpp.Examples.Data.{globals, submit_sm, packet, base, message, address, parameter, header}
use gosmpp.Address
use gosmpp.Buffer.RoundTrip.{NoNul}
use gosmpp.Buffer.{write_c_string, write_byte, write_short}
use gosmpp.Base.{marshal_options, marshal_entries}
use gosmpp.Tlv
use gosmpp.Tlv.RoundTrip.{IsTlv}
use gosmpp.Outcome.{Bytes, Outcome, ok, err, invalid_pdu, Decodes}
use gosmpp.Globals.{Globals}
use gosmpp.Wire.{marshal, unmarshal}
use gosmpp.Wire.RoundTrip.{arrived, Fresh, pdu-Decodes}
use gosmpp.Parse.{parse}
use gosmpp.Parse.RoundTrip.{parse-marshal}
use gosmpp.Parse.Framing.{HasFrame, parse-ok, parse_takes, parse-bad_length}
use gosmpp.Factory.Typed.{IsTyped, Creates}
use gosmpp.Factory.Created.{create_pdu_from_cmd_id-Creates}
use gosmpp.Wire.Framing.{IsFrameOf, pdu-IsFrameOf}
use gosmpp.Response.{can_response, get_response}
use gosmpp.Response.Answers.{Answers}
use gosmpp.Response.Replies.{get_response-Answers}
use gosmpp.Packet.{Pdu, base_of}
use gosmpp.Header.{parse_header}
use gosmpp.CommandId
use gosmpp.Buffer.Consumption.{unread}
use gosmpp.Buffer.Safety.{IsBytes, Returned}
use gosmpp.NoPanic.Streams.{parse-Returned}
use gosmpp.Pdu.SubmitSm
use gosmpp.Pdu.SubmitSm.{SubmitSm}
use gosmpp.Pdu.SubmitSm.{write_body}
use gosmpp.Pdu.SubmitSm.RoundTrip.{IsSendable}
use gosmpp.ShortMessage.{udh_indicator}
use gosmpp.ShortMessage.RoundTrip.{Fits, blank}
use gosmpp.Prelude.{
  inl, ◌≢◌, refl, arith, ◌≡◌, true, false, length, drop, [], ◌∷◌, ◌++◌, ◌+◌, ◌≤◌, ◌∙◌, ap, some,
}
use gosmpp.Base.RoundTrip.{IsFrame, framed, framed-length, length-wire}

fits : Fits message true
fits = (omega arith, omega arith)

indicated : udh_indicator 0x40 ≡ true
unfolding udh_indicator
indicated = refl

address_fits : NoNul address.address
address_fits = (omega arith, (omega arith, (omega arith, tt)))

body_size : length (write_body submit_sm) ≡ 33
unfolding write_body write_c_string write_byte Address.marshal gosmpp.ShortMessage.marshal
    gosmpp.Udh.udhl gosmpp.Udh.marshal_binary gosmpp.ShortMessage.coding_of
    gosmpp.Encoding.data_coding
body_size = refl

options_size : length (marshal_options submit_sm.base.optional_parameters) ≡ 7
unfolding marshal_options marshal_entries Tlv.marshal write_short
options_size = refl

parameter_fits : IsTlv parameter
parameter_fits = record { tag_fits = omega arith; not_empty = omega arith; not_long = omega arith }

frame : IsFrame submit_sm.base (write_body submit_sm)
frame = record {
  id_fits = omega arith;
  status_fits = omega arith;
  sequence_fits = omega arith;
  options_fit = (refl, parameter_fits, tt, tt);
  length_fits = omega (arith, body_size, options_size);
}

pub sendable : IsSendable submit_sm
sendable = record {
  frame = frame;
  service_type_fits = tt;
  source_addr_fits = address_fits;
  dest_addr_fits = address_fits;
  schedule_delivery_time_fits = tt;
  validity_period_fits = tt;
  message_fits = rw indicated fits;
}

pub typed : IsTyped packet
typed = (refl, refl, refl)

length-packet :
    length (marshal packet).1 ≡ (framed submit_sm.base (write_body submit_sm)).header.command_length
unfolding marshal SubmitSm.marshal
length-packet = length-wire submit_sm.base (write_body submit_sm) frame

pub packet_size : length (marshal packet).1 ≡ 56
packet_size =
    length-packet
    ∙ omega
        (arith, framed-length submit_sm.base (write_body submit_sm) frame, body_size, options_size)

abbrev tail : Bytes
tail = 1 ∷ 2 ∷ []

parse-marshal_example :
    (g' : Globals) × (parse globals ((marshal packet).1 ++ tail) ≡ (ok (arrived packet) tail, g'))
parse-marshal_example =
    parse-marshal globals packet tail typed sendable (omega (arith, packet_size))

parsed : (parse globals ((marshal packet).1 ++ tail)).0 ≡ ok (arrived packet) tail
parsed =
    ap (λ (r : Outcome Pdu × Globals). r.0)
      (parse-marshal globals packet tail typed sendable (omega (arith, packet_size))).1

parse-ok_example :
    ((base_of (arrived packet)).header ≡ parse_header ((marshal packet).1 ++ tail))
    × (16 ≤ (base_of (arrived packet)).header.command_length)
    × ((base_of (arrived packet)).header.command_length ≤ 65536)
    × (tail ≡ drop (base_of (arrived packet)).header.command_length ((marshal packet).1 ++ tail))
    × (length ((marshal packet).1 ++ tail)
        ≡ (base_of (arrived packet)).header.command_length + length tail)
parse-ok_example = parse-ok globals ((marshal packet).1 ++ tail) parsed

abbrev fresh_sm : SubmitSm
fresh_sm = record submit_sm {
  base = record { header = header 0; optional_parameters = some [] };
  message = blank false;
}

fresh : Fresh (Pdu.submit_sm fresh_sm) packet
fresh = Fresh.submit_sm (record { options = refl; no_message = refl })

pdu-Decodes_example :
    Decodes (unmarshal (Pdu.submit_sm fresh_sm)) (marshal packet).1 (arrived packet)
pdu-Decodes_example = pdu-Decodes fresh sendable

decoded : unmarshal (Pdu.submit_sm fresh_sm) ((marshal packet).1 ++ tail) ≡ ok (arrived packet) tail
decoded = (pdu-Decodes fresh sendable).apply tail

pdu-IsFrameOf_example : IsFrameOf ((marshal packet).1 ++ tail) (base_of (arrived packet)) tail
pdu-IsFrameOf_example = pdu-IsFrameOf (Pdu.submit_sm fresh_sm) ((marshal packet).1 ++ tail) decoded

create_pdu_from_cmd_id-Creates_example : Creates globals packet
create_pdu_from_cmd_id-Creates_example = create_pdu_from_cmd_id-Creates globals packet typed

pub can : can_response packet ≡ true
unfolding can_response
can = refl

get_response-Answers_example :
    (r : Pdu) × ((get_response globals packet).0 ≡ some r) × Answers r packet
get_response-Answers_example = get_response-Answers globals packet typed can

abbrev pub response : Pdu
response =
    Pdu.submit_sm_resp (record { base = base CommandId.submit_sm_resp; message_id = 49 ∷ [] })

cannot : can_response response ≡ false
unfolding can_response
cannot = refl

-- A submit_sm with a body of two bytes, and two bytes of the next PDU.
abbrev stream : Bytes
stream = 0 ∷ 0 ∷ 0 ∷ 18 ∷ 0 ∷ 0 ∷ 0 ∷ 4 ∷ 0 ∷ 0 ∷ 0 ∷ 0 ∷ 0 ∷ 0 ∷ 0 ∷ 1 ∷ 65 ∷ 0 ∷ tail

stream_header : (parse_header stream).command_length ≡ 18
unfolding parse_header
stream_header = refl

whole : HasFrame stream
whole = record {
  header_there = omega arith;
  length_valid = rw stream_header refl;
  body_there = rw stream_header (omega arith);
}

parse_takes_example :
    unread (parse globals stream).0 ≡ drop (parse_header stream).command_length stream
parse_takes_example = parse_takes globals stream whole

abbrev pub too_short : Bytes
too_short = 0 ∷ 0 ∷ 0 ∷ 15 ∷ 0 ∷ 0 ∷ 0 ∷ 4 ∷ 0 ∷ 0 ∷ 0 ∷ 0 ∷ 0 ∷ 0 ∷ 0 ∷ 1 ∷ tail

too_short_header : (parse_header too_short).command_length ≡ 15
unfolding parse_header
too_short_header = refl

parse-bad_length_example : parse globals too_short ≡ (err invalid_pdu (drop 16 too_short), globals)
parse-bad_length_example =
    parse-bad_length globals too_short (omega arith) (inl (rw too_short_header (omega arith)))

abbrev cut : Bytes
cut = 0 ∷ 0 ∷ 0 ∷ 30 ∷ 0 ∷ 0 ∷ 0 ∷ 4 ∷ 0 ∷ 0 ∷ 0 ∷ 0 ∷ 0 ∷ 0 ∷ 0 ∷ 1 ∷ tail

cut_header : (parse_header cut).command_length ≡ 30
unfolding parse_header
cut_header = refl

stream-IsBytes : IsBytes stream
stream-IsBytes = ground arith

stream_id : (parse_header stream).command_id ≢ CommandId.query_sm
unfolding parse_header
stream_id = λ e. omega arith

parse-Returned_example : Returned (parse globals stream).0
parse-Returned_example = parse-Returned globals stream stream-IsBytes stream_id
