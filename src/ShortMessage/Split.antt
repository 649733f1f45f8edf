-- ===== src/ShortMessage/Split.antt =====
-- Texts of pdu/ShortMessage.go: SetMessageWithEncoding, split, the constructors, and GetMessage. What
-- an encoding does, and the runes of a string, are parameters.
pub mod Parts
use gosmpp.Prelude.{
  ℕ, ◌+◌, ◌-◌, ◌*◌, ◌%◌, Bool, true, false, ◌&&◌, List, [], ◌∷◌, Option, none, some, ◌⊎◌, inl, inr,
  ◌==◌, ltb, if◌then◌else◌, length,
}
use gosmpp.Outcome.{Bytes, Error, message_too_long, nil_interface}
use gosmpp.Globals.{Globals, get_ref_num}
use gosmpp.Encoding.{Encoding, gsm7bit, gsm7bit_packed, binary8bit2}
use gosmpp.Udh.{new_ie_concat_message}
use gosmpp.Gsm7.{get_escape_chars}
use gosmpp.ShortMessage.{
  ShortMessage, sm_msg_len, set_message_data_with_encoding, set_long_message_with_enc,
}

-- data.Splitter
pub record Splitter : Type 0 where
  pub should_split : Bytes → ℕ → Bool
  pub encode_split : Bytes → ℕ → Error ⊎ List Bytes

-- The methods of the encodings: Encode with the bytes that it gives beside an error, Decode, and the
-- Splitter of an encoding that implements it. `runes` is `[]rune(s)`.
pub record Codecs : Type 0 where
  pub encode : Encoding → Bytes → Bytes × Option Error
  pub decode : Encoding → Bytes → Error ⊎ Bytes
  pub splitter : Encoding → Option Splitter
  pub runes : Bytes → List ℕ

-- data.SM_GSM_MSG_LEN
abbrev pub sm_gsm_msg_len : ℕ
sm_gsm_msg_len = 140

-- ShortMessage{}
abbrev pub zero_message : ShortMessage
zero_message = record {
  sm_default_msg_id = 0;
  message = [];
  enc = none;
  ud_header = [];
  message_data = [];
  without_data_coding = false;
}

is_packed : Option Encoding → Bool
is_packed (some gsm7bit_packed) = true
is_packed e = false

-- `messageData[len-1]` loses what would be read as an @. The packed encoder gives an octet for
-- every text with seven septets, so the data is not empty where this is used.
fix_last : Bytes → Bytes
fix_last [] = []
fix_last (b ∷ []) = (b % 2 + 26) ∷ []
fix_last (b ∷ c ∷ l) = b ∷ fix_last (c ∷ l)

module _ (codecs : Codecs) where
  -- `(nSeptet+1)%8 == 0`
  fills_septets : Bytes → Bool
  fills_septets message =
      let runes = codecs.runes message in
      let esc_chars_len = length (get_escape_chars runes) in
      (esc_chars_len * 2 + (length runes - esc_chars_len) + 1) % 8 == 0

  no_at : ShortMessage → ShortMessage
  unfolding is_packed fix_last fills_septets
  no_at c =
      if is_packed c.enc && fills_septets c.message
      then record c { message_data = fix_last c.message_data }
      else c

  encoded : Bytes → Encoding → ShortMessage → Bytes × Option Error → ShortMessage × Option Error
  unfolding no_at
  encoded message enc c (d, some e) = (record c { message_data = d }, some e)
  encoded message enc c (d, none) =
      if ltb sm_msg_len (length d)
      then (no_at (record c { message_data = d }), some message_too_long)
      else (no_at (record c { message_data = d; message = message; enc = some enc }), none)

  -- SetMessageWithEncoding; a nil encoding has no method Encode.
  unfoldable pub set_message_with_encoding :
      Bytes → Option Encoding → ShortMessage → ShortMessage × Option Error
  unfolding encoded
  set_message_with_encoding message none c = (c, some nil_interface)
  set_message_with_encoding message (some enc) c = encoded message enc c (codecs.encode enc message)

  -- GetMessageWithEncoding
  unfoldable pub get_message_with_encoding : Encoding → ShortMessage → Error ⊎ Bytes
  get_message_with_encoding enc c =
      if ltb 0 (length c.message_data) then codecs.decode enc c.message_data else inr []

  abbrev pub encoding_or_default : Option Encoding → Encoding
  encoding_or_default none = gsm7bit
  encoding_or_default (some enc) = enc

  -- GetMessage
  unfoldable pub get_message : ShortMessage → Error ⊎ Bytes
  unfolding get_message_with_encoding
  get_message c = get_message_with_encoding (encoding_or_default c.enc) c

  -- The messages of the segments, from number `i` on.
  unfoldable pub parts : ShortMessage → ℕ → ℕ → ℕ → List Bytes → List ShortMessage
  parts c total ref i [] = []
  parts c total ref i (seg ∷ segments) =
      record {
        sm_default_msg_id = 0;
        message = [];
        enc = c.enc;
        ud_header = new_ie_concat_message (total % 256) ((i + 1) % 256) (ref % 256) ∷ [];
        message_data = seg;
        without_data_coding = c.without_data_coding;
      }
      ∷ parts c total ref (i + 1) segments

  segmented : Globals → ShortMessage → Error ⊎ List Bytes → (Error ⊎ List ShortMessage) × Globals
  unfolding parts
  segmented g c (inl e) = (inl e, g)
  segmented g c (inr segments) =
      let (ref, g') = get_ref_num g in (inr (parts c (length segments) ref 0 segments), g')

  -- The message that stands beside an error is dropped.
  one_message : ShortMessage × Option Error → Error ⊎ List ShortMessage
  one_message (c, none) = inr (c ∷ [])
  one_message (c, some e) = inl e

  split_by : Globals → ShortMessage → Option Splitter → (Error ⊎ List ShortMessage) × Globals
  unfolding segmented set_message_with_encoding one_message
  split_by g c none = (one_message (set_message_with_encoding c.message c.enc c), g)
  split_by g c (some s) =
      if s.should_split c.message sm_gsm_msg_len
      then segmented g c (s.encode_split c.message (sm_gsm_msg_len - 6))
      else (one_message (set_message_with_encoding c.message c.enc c), g)

  -- split
  unfoldable pub split : Globals → ShortMessage → (Error ⊎ List ShortMessage) × Globals
  unfolding split_by
  split g c = split_by g c (codecs.splitter (encoding_or_default c.enc))

  -- NewShortMessageWithEncoding, NewShortMessage, and NewLongMessageWithEncoding, NewLongMessage.
  unfoldable pub new_short_message_with_encoding :
      Bytes → Option Encoding → ShortMessage × Option Error
  unfolding set_message_with_encoding
  new_short_message_with_encoding message enc = set_message_with_encoding message enc zero_message

  unfoldable pub new_short_message : Bytes → ShortMessage × Option Error
  unfolding set_message_with_encoding
  new_short_message message = set_message_with_encoding message (some gsm7bit) zero_message

  unfoldable pub new_long_message_with_encoding :
      Globals → Bytes → Option Encoding → (Error ⊎ List ShortMessage) × Globals
  unfolding split set_long_message_with_enc
  new_long_message_with_encoding g message enc =
      split g (set_long_message_with_enc message enc zero_message)

  unfoldable pub new_long_message : Globals → Bytes → (Error ⊎ List ShortMessage) × Globals
  unfolding new_long_message_with_encoding
  new_long_message g message = new_long_message_with_encoding g message (some gsm7bit)

-- NewBinaryShortMessage and NewBinaryShortMessageWithEncoding
unfoldable pub new_binary_short_message_with_encoding :
    Bytes → Option Encoding → ShortMessage × Option Error
new_binary_short_message_with_encoding message_data enc =
    set_message_data_with_encoding message_data enc zero_message

unfoldable pub new_binary_short_message : Bytes → ShortMessage × Option Error
unfolding new_binary_short_message_with_encoding
new_binary_short_message message_data =
    new_binary_short_message_with_encoding message_data (some binary8bit2)
