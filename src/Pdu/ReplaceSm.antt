-- ===== src/Pdu/ReplaceSm.antt =====
-- ReplaceSM of pdu/ReplaceSM.go.
pub mod RoundTrip
use gosmpp.Prelude.{ℕ, [], ◌∷◌, true, false}
use gosmpp.Outcome.{Bytes, Reader, pure, ◌>>=◌, writes}
use gosmpp.Buffer.{read_byte, write_byte, read_c_string, write_c_string}
use gosmpp.Globals.{Globals}
use gosmpp.Header.{Header}
use gosmpp.Base
use gosmpp.Base.{Base, new_base, set_command_id}
use gosmpp.Address
use gosmpp.Address.{Address, new_address}
use gosmpp.ShortMessage
use gosmpp.ShortMessage.{ShortMessage, empty_message}
use gosmpp.CommandId

pub record ReplaceSm : Type 0 where
  pub base : Base
  pub message_id : Bytes
  pub source_addr : Address
  pub schedule_delivery_time : Bytes
  pub validity_period : Bytes
  pub registered_delivery : ℕ
  pub message : ShortMessage

unfoldable pub new : Globals → ReplaceSm × Globals
new g =
    let (base, g') = new_base g in
    (
      record {
        base = set_command_id CommandId.replace_sm base;
        message_id = [];
        source_addr = new_address g;
        schedule_delivery_time = [];
        validity_period = [];
        registered_delivery = 0;
        message = record empty_message { without_data_coding = true };
      },
      g',
    )

-- The bodyWriter and the bodyReader.
unfoldable pub write_body : ReplaceSm → Bytes
write_body c = writes (
    write_c_string c.message_id
    ∷ Address.marshal c.source_addr
    ∷ write_c_string c.schedule_delivery_time
    ∷ write_c_string c.validity_period
    ∷ write_byte c.registered_delivery
    ∷ ShortMessage.marshal c.message
    ∷ [])

unfoldable pub read_body : ReplaceSm → Reader ReplaceSm
read_body c = do
  message_id ← read_c_string
  source_addr ← Address.unmarshal
  schedule_delivery_time ← read_c_string
  validity_period ← read_c_string
  registered_delivery ← read_byte
  message ← ShortMessage.unmarshal c.message false
  pure (record c {
    message_id = message_id;
    source_addr = source_addr;
    schedule_delivery_time = schedule_delivery_time;
    validity_period = validity_period;
    registered_delivery = registered_delivery;
    message = message;
  })

unfoldable pub marshal : ReplaceSm → ReplaceSm × Bytes
marshal c =
    let (base, bytes) = Base.marshal c.base (write_body c) in (record c { base = base }, bytes)

unfoldable pub unmarshal : ReplaceSm → Reader ReplaceSm
unmarshal c = do
  (base, c') ← Base.unmarshal c.base (λ (_ : Header). read_body c)
  pure (record c' { base = base })
