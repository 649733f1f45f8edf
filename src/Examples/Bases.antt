-- ===== src/Examples/Bases.antt =====
-- The frame round a body, and a refused bind.
use gosmpp.Examples.Data.{submit_sm, base, parameter, header}
use gosmpp.Buffer.RoundTrip.{NoNul}
use gosmpp.Buffer.{write_c_string, write_short}
use gosmpp.Base.{marshal_options, marshal_entries}
use gosmpp.Tlv
use gosmpp.Tlv.RoundTrip.{IsTlv}
use gosmpp.Outcome.{Bytes, ok, err, not_enough_bytes, Decodes}
use gosmpp.CommandId
use gosmpp.Base
use gosmpp.Base.{Base}
use gosmpp.Buffer.{read_c_string}
use gosmpp.Buffer.RoundTrip.{c_string-Decodes}
use gosmpp.Pdu.BindResp
use gosmpp.Pdu.BindResp.{BindResp}
use gosmpp.Pdu.BindResp.Refused.{unmarshal-marshal_refused}
use gosmpp.Prelude.{refl, arith, ◌≡◌, length, [], ◌∷◌, ◌++◌, ap, some}
use gosmpp.Base.RoundTrip.{IsFrame, framed, wire, frame-Decodes}

options_size : length (marshal_options submit_sm.base.optional_parameters) ≡ 7
unfolding marshal_options marshal_entries Tlv.marshal write_short
options_size = refl

parameter_fits : IsTlv parameter
parameter_fits = record { tag_fits = omega arith; not_empty = omega arith; not_long = omega arith }

abbrev tail : Bytes
tail = 1 ∷ 2 ∷ []

abbrev text : Bytes
text = 72 ∷ 105 ∷ []

text_size : length (write_c_string text) ≡ 3
unfolding write_c_string
text_size = refl

text-IsFrame : IsFrame (base 4) (write_c_string text)
text-IsFrame = record {
  id_fits = omega arith;
  status_fits = omega arith;
  sequence_fits = omega arith;
  options_fit = (refl, parameter_fits, tt, tt);
  length_fits = omega (arith, text_size, options_size);
}

text_fits : NoNul text
text_fits = (omega arith, (omega arith, tt))

abbrev empty_base : Base
empty_base = record { header = header 0; optional_parameters = some [] }

frame-Decodes_example :
    Decodes
      (Base.unmarshal empty_base (λ _. read_c_string))
      (wire (base 4) (write_c_string text))
      (framed (base 4) (write_c_string text), text)
frame-Decodes_example =
    frame-Decodes (base 4) empty_base (write_c_string text) (λ _. read_c_string) text text-IsFrame
      refl (c_string-Decodes text text_fits)

read :
    Base.unmarshal empty_base (λ _. read_c_string) (wire (base 4) (write_c_string text) ++ tail)
    ≡ ok (framed (base 4) (write_c_string text), text) tail
read =
    (frame-Decodes (base 4) empty_base (write_c_string text) (λ _. read_c_string) text text-IsFrame
        refl (c_string-Decodes text text_fits)).apply
      tail

abbrev refused : BindResp
refused = record {
  base = record {
    header = record {
      command_length = 0;
      command_id = CommandId.bind_transmitter_resp;
      command_status = 14;
      sequence_number = 1;
    };
    optional_parameters = some [];
  };
  system_id = [];
}

refused_size : length (BindResp.write_body refused) ≡ 1
unfolding BindResp.write_body write_c_string
refused_size = refl

no_options : marshal_options refused.base.optional_parameters ≡ []
unfolding marshal_options marshal_entries
no_options = refl

refused-IsFrame : IsFrame refused.base (BindResp.write_body refused)
refused-IsFrame = record {
  id_fits = omega arith;
  status_fits = omega arith;
  sequence_fits = omega arith;
  options_fit = tt;
  length_fits = omega (arith, refused_size, ap (λ (b : Bytes). length b) no_options);
}

unmarshal-marshal_refused_example :
    (b : Bytes) × (BindResp.unmarshal refused (BindResp.marshal refused).1 ≡ err not_enough_bytes b)
unmarshal-marshal_refused_example =
    unmarshal-marshal_refused refused refused refused-IsFrame refl no_options refl
