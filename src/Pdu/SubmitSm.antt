-- ===== src/Pdu/SubmitSm.antt =====
-- SubmitSM of pdu/SubmitSM.go.
pub mod RoundTrip
pub mod Split
use gosmpp.Prelude.{ℕ, [], ◌∷◌}
use gosmpp.Outcome.{Bytes, Reader, pure, ◌>>=◌, writes}
use gosmpp.Buffer.{read_byte, write_byte, read_c_string, write_c_string}
use gosmpp.Globals.{Globals}
use gosmpp.Header.{Header}
use gosmpp.Base
use gosmpp.Base.{Base, new_base, set_command_id}
use gosmpp.Address
use gosmpp.Address.{Address, new_address}
use gosmpp.ShortMessage
use gosmpp.ShortMessage.{ShortMessage, empty_message, udh_indicator}
use gosmpp.CommandId

pub record SubmitSm : Type 0 where
  pub base : Base
  pub service_type : Bytes
  pub source_addr : Address
  pub dest_addr : Address
  pub esm_class : ℕ
  pub protocol_id : ℕ
  pub priority_flag : ℕ
  pub schedule_delivery_time : Bytes
  pub validity_period : Bytes
  pub registered_delivery : ℕ
  pub replace_if_present_flag : ℕ
  pub message : ShortMessage

unfoldable pub new : Globals → SubmitSm × Globals
new g =
    let (base, g') = new_base g in
    (
      record {
        base = set_command_id CommandId.submit_sm base;
        service_type = [];
        source_addr = new_address g;
        dest_addr = new_address g;
        esm_class = 0;
        protocol_id = 0;
        priority_flag = 0;
        schedule_delivery_time = [];
        validity_period = [];
        registered_delivery = 0;
        replace_if_present_flag = 0;
        message = empty_message;
      },
      g',
    )

-- The bodyWriter and the bodyReader.
unfoldable pub write_body : SubmitSm → Bytes
write_body c = writes (
    write_c_string c.service_type
    ∷ Address.marshal c.source_addr
    ∷ Address.marshal c.dest_addr
    ∷ write_byte c.esm_class
    ∷ write_byte c.protocol_id
    ∷ write_byte c.priority_flag
    ∷ write_c_string c.schedule_delivery_time
    ∷ write_c_string c.validity_period
    ∷ write_byte c.registered_delivery
    ∷ write_byte c.replace_if_present_flag
    ∷ ShortMessage.marshal c.message
    ∷ [])

unfoldable pub read_body : SubmitSm → Reader SubmitSm
read_body c = do
  service_type ← read_c_string
  source_addr ← Address.unmarshal
  dest_addr ← Address.unmarshal
  esm_class ← read_byte
  protocol_id ← read_byte
  priority_flag ← read_byte
  schedule_delivery_time ← read_c_string
  validity_period ← read_c_string
  registered_delivery ← read_byte
  replace_if_present_flag ← read_byte
  message ← ShortMessage.unmarshal c.message (udh_indicator esm_class)
  pure (record c {
    service_type = service_type;
    source_addr = source_addr;
    dest_addr = dest_addr;
    esm_class = esm_class;
    protocol_id = protocol_id;
    priority_flag = priority_flag;
    schedule_delivery_time = schedule_delivery_time;
    validity_period = validity_period;
    registered_delivery = registered_delivery;
    replace_if_present_flag = replace_if_present_flag;
    message = message;
  })

unfoldable pub marshal : SubmitSm → SubmitSm × Bytes
marshal c =
    let (base, bytes) = Base.marshal c.base (write_body c) in (record c { base = base }, bytes)

unfoldable pub unmarshal : SubmitSm → Reader SubmitSm
unmarshal c = do
  (base, c') ← Base.unmarshal c.base (λ (_ : Header). read_body c)
  pure (record c' { base = base })
