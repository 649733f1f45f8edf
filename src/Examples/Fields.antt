-- ===== src/Examples/Fields.antt =====
-- Optional parameters, destinations, headers, strings and sequence numbers.
use gosmpp.Prelude.{ℕ, ◌≡◌, refl, arith, some, none, [], ◌∷◌, ◌++◌, ◌≤◌, ◌<◌, ◌-◌, ◌^◌}
use gosmpp.Outcome.{Bytes, ok, err, nil_map_write}
use gosmpp.Buffer.RoundTrip.{NoNul}
use gosmpp.Globals.{next_sequence_number}
use gosmpp.Globals.Sequence.{next_sequence_number_bounds, next_sequence_number_twice_one}
use gosmpp.Header.RoundTrip.{IsWords}
use gosmpp.Tlv
use gosmpp.Tlv.RoundTrip.{IsTlv}
use gosmpp.Base.{Options, unmarshal_optional_param, marshal_entries}
use gosmpp.Base.Options.{IsOptions, unmarshal_optional_param-entries, unmarshal_optional_param_nil}
use gosmpp.DestinationAddress.{DestinationAddress, DestinationAddresses}
use gosmpp.UnsuccessSme.{UnsuccessSmes}
use gosmpp.CommandId
use gosmpp.Examples.Data.{header, parameter, address}

abbrev text : Bytes
text = 72 ∷ 105 ∷ []

words : IsWords (header CommandId.submit_sm)
words = record {
  length_fits = omega arith;
  id_fits = omega arith;
  status_fits = omega arith;
  sequence_fits = omega arith;
}

parameter_fits : IsTlv parameter
parameter_fits = record { tag_fits = omega arith; not_empty = omega arith; not_long = omega arith }

abbrev reference : Tlv.Field
reference = record { tag = 0x0204; value = 0 ∷ 9 ∷ [] }

abbrev options : Options
options = (0x001E, parameter) ∷ (0x0204, reference) ∷ []

options_fit : IsOptions options
options_fit = (
  refl,
  parameter_fits,
  (omega arith, tt),
  (
    refl,
    record { tag_fits = omega arith; not_empty = omega arith; not_long = omega arith },
    tt,
    tt,
  ),
)

unmarshal_optional_param-entries_example :
    unmarshal_optional_param (some []) (marshal_entries options) ≡ ok (some options) []
unmarshal_optional_param-entries_example = unmarshal_optional_param-entries options options_fit

unmarshal_optional_param_nil_example :
    (b : Bytes) × (unmarshal_optional_param none (Tlv.marshal parameter ++ text)
      ≡ err nil_map_write b)
unmarshal_optional_param_nil_example = unmarshal_optional_param_nil parameter text parameter_fits

abbrev destination : DestinationAddress
destination = record { dest_flag = 1; address = address; dl = record { name = [] } }

abbrev list : DestinationAddress
list = record {
  dest_flag = 2;
  address = record { ton = 0; npi = 0; address = [] };
  dl = record { name = text };
}

abbrev destinations : DestinationAddresses
destinations = record { l = destination ∷ list ∷ [] }

address_fits : NoNul address.address
address_fits = (omega arith, (omega arith, (omega arith, tt)))

abbrev smes : UnsuccessSmes
smes = record { l = record { address = address; error_status_code = 11 } ∷ [] }

next_sequence_number_bounds_example :
    (1 ≤ (next_sequence_number (2 ^ 32 - 1)).0)
    × ((next_sequence_number (2 ^ 32 - 1)).0 < 2 ^ 31)
    × ((next_sequence_number (2 ^ 32 - 1)).1 < 2 ^ 32)
next_sequence_number_bounds_example = next_sequence_number_bounds (2 ^ 32 - 1)

abbrev last : ℕ
last = 2 ^ 31 - 1

same : (next_sequence_number last).0 ≡ (next_sequence_number (next_sequence_number last).1).0
unfolding next_sequence_number
same = refl

next_sequence_number_twice_one_example :
    ((next_sequence_number last).0 ≡ 1)
    × ((next_sequence_number (next_sequence_number last).1).0 ≡ 1)
next_sequence_number_twice_one_example = next_sequence_number_twice_one last refl
