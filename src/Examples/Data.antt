-- ===== src/Examples/Data.antt =====
-- The concrete values of the examples: a submit_sm with a segment of a long message and an optional
-- parameter, and the package variables that its receiver starts from.
use gosmpp.Prelude.{ℕ, [], ◌∷◌, some, false}
use gosmpp.Globals.{Globals}
use gosmpp.Header.{Header}
use gosmpp.Address.{Address}
use gosmpp.Tlv.{Field}
use gosmpp.Udh.{InfoElement, Udh}
use gosmpp.Encoding.{ucs2}
use gosmpp.ShortMessage.{ShortMessage}
use gosmpp.Base.{Base}
use gosmpp.CommandId
use gosmpp.Pdu.SubmitSm.{SubmitSm}
use gosmpp.Packet.{Pdu}

abbrev pub globals : Globals
globals = record { sequence_number = 41; ref = 7; default_ton = 1; default_npi = 1 }

abbrev pub header : ℕ → Header
header id = record { command_length = 0; command_id = id; command_status = 0; sequence_number = 42 }

-- receipted_message_id
abbrev pub parameter : Field
parameter = record { tag = 0x001E; value = 65 ∷ 66 ∷ 0 ∷ [] }

abbrev pub base : ℕ → Base
base id = record { header = header id; optional_parameters = some ((0x001E, parameter) ∷ []) }

abbrev pub address : Address
address = record { ton = 1; npi = 1; address = 49 ∷ 50 ∷ 51 ∷ [] }

abbrev pub element : InfoElement
element = record { id = 0; value = 7 ∷ 2 ∷ 1 ∷ [] }

abbrev pub user_header : Udh
user_header = element ∷ []

abbrev pub message : ShortMessage
message = record {
  sm_default_msg_id = 0;
  message = [];
  enc = some ucs2;
  ud_header = user_header;
  message_data = 0 ∷ 72 ∷ 0 ∷ 105 ∷ [];
  without_data_coding = false;
}

abbrev pub submit_sm : SubmitSm
submit_sm = record {
  base = base CommandId.submit_sm;
  service_type = [];
  source_addr = address;
  dest_addr = address;
  esm_class = 0x40;
  protocol_id = 0;
  priority_flag = 0;
  schedule_delivery_time = [];
  validity_period = [];
  registered_delivery = 1;
  replace_if_present_flag = 0;
  message = message;
}

abbrev pub packet : Pdu
packet = Pdu.submit_sm submit_sm
