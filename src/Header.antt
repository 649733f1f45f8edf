-- ===== src/Header.antt =====
-- The 16 bytes before every PDU: Header of pdu/PDUHeader.go. The four numbers are int32 bit patterns.
pub mod RoundTrip
use gosmpp.Prelude.{ℕ, [], ◌∷◌, drop}
use gosmpp.Outcome.{Bytes, Reader, pure, ◌>>=◌, writes}
use gosmpp.Buffer.{read_int, write_int, uint32}
use gosmpp.Globals.{Globals, next_sequence_number}

pub record Header : Type 0 where
  pub command_length : ℕ
  pub command_id : ℕ
  pub command_status : ℕ
  pub sequence_number : ℕ

unfoldable pub parse_header : Bytes → Header
parse_header v = record {
  command_length = uint32 v;
  command_id = uint32 (drop 4 v);
  command_status = uint32 (drop 8 v);
  sequence_number = uint32 (drop 12 v);
}

unfoldable pub unmarshal : Reader Header
unmarshal = do
  command_length ← read_int
  id ← read_int
  status ← read_int
  sequence_number ← read_int
  pure (record {
    command_length = command_length;
    command_id = id;
    command_status = status;
    sequence_number = sequence_number;
  })

unfoldable pub marshal : Header → Bytes
marshal c = writes (
    write_int c.command_length
    ∷ write_int c.command_id
    ∷ write_int c.command_status
    ∷ write_int c.sequence_number
    ∷ [])

unfoldable pub set_sequence_number : ℕ → Header → Header
set_sequence_number v c = record c { sequence_number = v }

unfoldable pub reset_sequence_number : Header → Header
reset_sequence_number c = record c { sequence_number = 1 }

unfoldable pub assign_sequence_number : Globals → Header → Header × Globals
assign_sequence_number g c =
    let (v, s) = next_sequence_number g.sequence_number in
    (set_sequence_number v c, record g { sequence_number = s })

abbrev pub zero_header : Header
zero_header = record { command_length = 0; command_id = 0; command_status = 0; sequence_number = 0 }
