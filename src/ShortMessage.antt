-- ===== src/ShortMessage.antt =====
-- ShortMessage of pdu/ShortMessage.go as it travels: Marshal, Unmarshal and the setters.
pub mod RoundTrip
pub mod Consumption
pub mod Split
use Prim.Native.Nat.{bit_and}
use gosmpp.Prelude.{
  ℕ, zero, suc, ◌+◌, ◌%◌, Bool, true, false, ◌&&◌, [], ◌∷◌, ◌++◌, ltb, if◌then◌else◌, length, take,
  drop, Option, none, some, ◌⊎◌, inl, inr,
}
use gosmpp.Outcome.{
  Bytes, Error, Reader, err, udh_too_long, message_too_long, slice_out_of_range, pure, ◌>>=◌,
  writes,
}
use gosmpp.Buffer.{read_byte, write_byte, read_n}
use gosmpp.Encoding.{Encoding, gsm7bit, gsm7bit_coding, data_coding, from_data_coding}
use gosmpp.Udh.{Udh, udhl, marshal_binary, unmarshal_binary}

pub record ShortMessage : Type 0 where
  pub sm_default_msg_id : ℕ
  pub message : Bytes
  pub enc : Option Encoding
  pub ud_header : Udh
  pub message_data : Bytes
  pub without_data_coding : Bool

-- NewShortMessage(""): the GSM 7-bit encoder gives no bytes for no text.
abbrev pub empty_message : ShortMessage
empty_message = record {
  sm_default_msg_id = 0;
  message = [];
  enc = some gsm7bit;
  ud_header = [];
  message_data = [];
  without_data_coding = false;
}

-- `(c.EsmClass & data.SM_UDH_GSM) > 0`
unfoldable pub udh_indicator : ℕ → Bool
udh_indicator esm_class = ltb 0 (bit_and esm_class 0x40)

-- data.SM_MSG_LEN
abbrev pub sm_msg_len : ℕ
sm_msg_len = 254

unfoldable pub set_udh : Udh → ShortMessage → ShortMessage
set_udh udh c = record c { ud_header = udh }

unfoldable pub set_long_message_with_enc : Bytes → Option Encoding → ShortMessage → ShortMessage
set_long_message_with_enc message enc c = record c { message = message; enc = enc }

unfoldable pub set_message_data_with_encoding :
    Bytes → Option Encoding → ShortMessage → ShortMessage × Option Error
set_message_data_with_encoding d enc c =
    if ltb sm_msg_len (length d)
    then (c, some message_too_long)
    else (record c { message_data = d; enc = enc }, none)

-- The result of MarshalBinary with its error dropped; `none` is a nil slice.
bytes_or_nil : Error ⊎ Bytes → Option Bytes
bytes_or_nil (inl e) = none
bytes_or_nil (inr []) = none
bytes_or_nil (inr (b ∷ bs)) = some (b ∷ bs)

-- `udhBin`: the header's bytes if UDHL is positive.
header_bytes : Option ℕ → Udh → Option Bytes
unfolding bytes_or_nil
header_bytes none u = none
header_bytes (some zero) u = none
header_bytes (some (suc n)) u = bytes_or_nil (marshal_binary u)

unfoldable pub coding_of : Option Encoding → ℕ
coding_of none = gsm7bit_coding
coding_of (some e) = data_coding e

write_coding : Bool → Option Encoding → Bytes
unfolding coding_of
write_coding true enc = []
write_coding false enc = write_byte (coding_of enc)

-- The sm_length byte counts the header too.
write_length : Option Bytes → ℕ → Bytes
write_length none n = write_byte n
write_length (some udh_bin) n = write_byte ((n + length udh_bin) % 256) ++ udh_bin

unfoldable pub marshal : ShortMessage → Bytes
unfolding write_coding header_bytes write_length
marshal c =
    let n = length c.message_data % 256 in
    writes (
      write_coding c.without_data_coding c.enc
      ∷ write_byte c.sm_default_msg_id
      ∷ write_length (header_bytes (udhl c.ud_header) c.ud_header) n
      ∷ take n c.message_data
      ∷ [])

unfoldable pub read_coding : Bool → Reader ℕ
read_coding true = pure 0
read_coding false = read_byte

-- `c.messageData[f:]`, where `none` is the UDHL -1.
unfoldable pub strip_header : ShortMessage → Option ℕ → Reader ShortMessage
strip_header c none = err slice_out_of_range
strip_header c (some f) =
    if ltb (length c.message_data) f
    then err udh_too_long
    else pure (record c { message_data = drop f c.message_data })

unfoldable pub take_header : ShortMessage → Error ⊎ (Udh × ℕ) → Reader ShortMessage
unfolding strip_header
take_header c (inl e) = err e
take_header c (inr (udh, read)) = strip_header (record c { ud_header = udh }) (udhl udh)

unfoldable pub finish_unmarshal : ShortMessage → ℕ → Bool → Reader ShortMessage
unfolding take_header
finish_unmarshal c n udhi =
    if udhi && ltb 0 n then take_header c (unmarshal_binary c.message_data) else pure c

unfoldable pub unmarshal : ShortMessage → Bool → Reader ShortMessage
unfolding read_coding finish_unmarshal
unmarshal c udhi = do
  data_coding ← read_coding c.without_data_coding
  sm_default_msg_id ← read_byte
  n ← read_byte
  message_data ← read_n n
  finish_unmarshal
      (record c {
        sm_default_msg_id = sm_default_msg_id;
        message_data = message_data;
        enc = from_data_coding data_coding;
      })
      n udhi
