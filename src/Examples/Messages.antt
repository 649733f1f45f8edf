-- ===== src/Examples/Messages.antt =====
-- Short messages and User Data Headers: the segment of the examples, and broken headers.
use gosmpp.Prelude.{◌≡◌, refl, arith, true, false, [], ◌∷◌, ◌++◌, inr}
use gosmpp.Outcome.{Bytes, Decodes}
use gosmpp.Udh.{Udh, marshal_binary, unmarshal_binary}
use gosmpp.Udh.Size.{elements, marshal_binary-elements}
use gosmpp.Udh.RoundTrip.{unmarshal_binary-elements}
use gosmpp.ShortMessage.{marshal, unmarshal}
use gosmpp.ShortMessage.RoundTrip.{Fits, blank, received, message-Decodes}
use gosmpp.Examples.Data.{message, element, user_header}

fits : Fits message true
fits = (omega arith, omega arith)

message-Decodes_example :
    Decodes (unmarshal (blank false) true) (marshal message) (received message)
message-Decodes_example = message-Decodes message true fits

abbrev text : Bytes
text = 72 ∷ 105 ∷ []

unmarshal_binary-elements_example :
    unmarshal_binary (5 ∷ (elements user_header ++ text)) ≡ inr (user_header, 6)
unmarshal_binary-elements_example =
    unmarshal_binary-elements user_header text (omega arith) (omega arith)

marshal_binary-elements_example : marshal_binary user_header ≡ inr (5 ∷ elements user_header)
marshal_binary-elements_example = marshal_binary-elements element []

abbrev port : Udh
port = record { id = 4; value = 1 ∷ 2 ∷ [] } ∷ []

-- The element ends past the length that the first byte gives.
abbrev overlong : Bytes
overlong = 3 ∷ 0 ∷ 3 ∷ 7 ∷ 2 ∷ 1 ∷ text

overlong_read : unmarshal_binary overlong ≡ inr (user_header, 6)
unfolding unmarshal_binary
overlong_read = refl
