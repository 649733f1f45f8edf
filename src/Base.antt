-- ===== src/Base.antt =====
-- `base` of pdu/PDU.go: the header and the optional parameters that every PDU embeds, and the frame
-- that `base.marshal` and `base.unmarshal` put round a body.
pub mod Options
pub mod RoundTrip
pub mod Framing
pub mod Fuel
use gosmpp.Prelude.{
  ℕ, zero, suc, ◌+◌, ◌-◌, ◌%◌, ◌^◌, Bool, ◌||◌, List, [], ◌∷◌, ◌++◌, ltb, ◌==◌, if◌then◌else◌,
  length, Option, none, some, ◌⊎◌, inl, inr,
}
use gosmpp.Outcome.{
  Bytes, Error, Outcome, Reader, ok, err, invalid_pdu, nil_map_write, out_of_fuel, pure, ◌>>=◌,
}
use gosmpp.Buffer.{read_n, is_negative32}
use gosmpp.Globals.{Globals}
use gosmpp.Header
use gosmpp.Header.{Header, zero_header}
use gosmpp.Tlv
use gosmpp.Tlv.{Field}

-- A map[Tag]Field: its entries, in the order in which `range` visits them. Every order is a list.
abbrev pub Options : Type 0
Options = List (ℕ × Field)

-- `none` is the nil map.
pub record Base : Type 0 where
  pub header : Header
  pub optional_parameters : Option Options

abbrev pub zero_base : Base
zero_base = record { header = zero_header; optional_parameters = none }

unfoldable pub new_base : Globals → Base × Globals
new_base g =
    let (header, g') = Header.assign_sequence_number g zero_header in
    (record { header = header; optional_parameters = some [] }, g')

unfoldable pub set_command_id : ℕ → Base → Base
set_command_id id c = record c { header = record c.header { command_id = id } }

unfoldable pub set_sequence_number : ℕ → Base → Base
set_sequence_number v c = record c { header = Header.set_sequence_number v c.header }

-- `m[k] = f` and `m[k]`
unfoldable pub insert : ℕ → Field → Options → Options
insert k f [] = (k, f) ∷ []
insert k f ((j, g) ∷ m) = if j == k then (k, f) ∷ m else (j, g) ∷ insert k f m

unfoldable pub lookup : ℕ → Options → Option Field
lookup k [] = none
lookup k ((j, g) ∷ m) = if j == k then some g else lookup k m

-- The map write `c.OptionalParameters[field.Tag] = field`, which panics on a nil map.
unfoldable pub store : Field → Option Options → Error ⊎ Option Options
store f none = inl nil_map_write
store f (some m) = inr (some (insert f.tag f m))

with_options : Base → Error ⊎ Option Options → Error ⊎ Base
with_options c (inl e) = inl e
with_options c (inr m) = inr (record c { optional_parameters = m })

unfoldable pub register_optional_param : Field → Base → Error ⊎ Base
unfolding with_options store
register_optional_param tlv c = with_options c (store tlv c.optional_parameters)

unfoldable pub stored : Error ⊎ Option Options → Reader (Option Options)
stored (inl e) = err e
stored (inr m) = pure m

-- One round of unmarshalOptionalParam.
unfoldable pub option_field : Option Options → Reader (Option Options)
unfolding stored
option_field m = do field ← Tlv.unmarshal; stored (store field m)

-- `for buf.Len() > 0`. Each round takes a byte at least, so a fuel of the length is enough.
unfoldable pub option_loop : ℕ → Option Options → Reader (Option Options)
option_loop fuel m [] = ok m []
option_loop zero m (x ∷ b) = err out_of_fuel (x ∷ b)
option_loop (suc fuel) m (x ∷ b) = (option_field m >>= option_loop fuel) (x ∷ b)

-- A read that goes on in a buffer of its own, and leaves the outer one alone.
unfoldable pub aside {ℓ} : {A : Type ℓ} → Outcome A → Reader A
aside (ok a _) b = ok a b
aside (err e _) b = err e b

unfoldable pub unmarshal_optional_param : Option Options → Bytes → Outcome (Option Options)
unmarshal_optional_param m opt_param = option_loop (length opt_param) m opt_param

-- `b.Len() != fullLen-cmdLength`
unfoldable pub check_length {ℓ} : {A : Type ℓ} → ℕ → ℕ → A → Reader A
check_length full cmd_length r b =
    if length b + cmd_length == full then ok r b else err invalid_pdu b

module _ {ℓ} {A : Type ℓ} where
  unfoldable pub read_options : ℕ → ℕ → Base → A → Reader (Base × A)
  read_options n full c a = do
    opt_param ← read_n n
    m ← aside (unmarshal_optional_param c.optional_parameters opt_param)
    check_length full c.header.command_length (record c { optional_parameters = m }, a)

  -- What follows the body. `got` is `full - length b`.
  unfoldable pub finish : ℕ → Base → A → Reader (Base × A)
  finish full c a b =
      let cmd_length = c.header.command_length in
      if is_negative32 cmd_length || ltb (cmd_length + length b) full
      then err invalid_pdu b
      else if ltb full (cmd_length + length b)
      then read_options (cmd_length + length b - full) full c a b
      else check_length full cmd_length (c, a) b

  -- `body` is the bodyReader; it may look at the header just read.
  unfoldable pub unmarshal_from : ℕ → Base → (Header → Reader A) → Reader (Base × A)
  unmarshal_from full c body = do
    header ← Header.unmarshal
    a ← body header
    finish full (record c { header = header }) a

  unfoldable pub unmarshal : Base → (Header → Reader A) → Reader (Base × A)
  unmarshal c body b = unmarshal_from (length b) c body b

unfoldable pub marshal_entries : Options → Bytes
marshal_entries [] = []
marshal_entries ((k, f) ∷ m) = Tlv.marshal f ++ marshal_entries m

unfoldable pub marshal_options : Option Options → Bytes
marshal_options none = []
marshal_options (some m) = marshal_entries m

-- data.PDU_HEADER_SIZE
abbrev pub pdu_header_size : ℕ
pdu_header_size = 16

-- The base with its new command length, and the bytes. `body` is what the bodyWriter wrote.
unfoldable pub marshal : Base → Bytes → Base × Bytes
marshal c body =
    let rest = body ++ marshal_options c.optional_parameters in
    let header : Header = record c.header {
      command_length = (pdu_header_size + length rest) % 2 ^ 32;
    } in
    (record c { header = header }, Header.marshal header ++ rest)

unfoldable pub is_ok : Base → Bool
is_ok c = c.header.command_status == 0

-- data.GENERIC_NACK
abbrev pub generic_nack_id : ℕ
generic_nack_id = 2 ^ 31

unfoldable pub is_g_nack : Base → Bool
is_g_nack c = c.header.command_id == generic_nack_id
