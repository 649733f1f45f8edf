-- ===== src/Examples/Splits.antt =====
-- A text in a splitting encoding, cut into two messages.
use gosmpp.Prelude.{ℕ, ◌≡◌, refl, arith, true, List, [], ◌∷◌, none, some, ◌⊎◌, inr}
use gosmpp.Outcome.{Bytes, Error}
use gosmpp.Globals.{Globals}
use gosmpp.Encoding.{gsm7bit}
use gosmpp.ShortMessage.{ShortMessage}
use gosmpp.ShortMessage.Split.{Codecs, Splitter, split, zero_message}
use gosmpp.ShortMessage.Split.Parts.{Numbered, datas, split-Numbered}

-- Octets as they are, two segments for any text that has something.
halves : Bytes → ℕ → Error ⊎ List Bytes
halves [] limit = inr []
halves (b ∷ text) limit = inr ((b ∷ []) ∷ text ∷ [])

abbrev splitter : Splitter
splitter = record { should_split = λ text limit. true; encode_split = halves }

abbrev codecs : Codecs
codecs = record {
  encode = λ enc text. (text, none);
  decode = λ enc octets. inr octets;
  splitter = λ enc. some splitter;
  runes = λ text. text;
}

abbrev long_message : ShortMessage
long_message = record zero_message { message = 65 ∷ 66 ∷ 67 ∷ []; enc = some gsm7bit }

abbrev globals : Globals
globals = record { sequence_number = 0; ref = 255; default_ton = 0; default_npi = 0 }

abbrev halved : List Bytes
halved = (65 ∷ []) ∷ (66 ∷ 67 ∷ []) ∷ []

halves_text : halves long_message.message 134 ≡ inr halved
unfolding halves
halves_text = refl

split-Numbered_example :
    (l : List ShortMessage) × (split codecs globals long_message
      ≡ (inr l, record globals { ref = 256 }))
    × (datas l ≡ halved)
    × Numbered 2 0 0 l
unfolding gosmpp.Globals.get_ref_num
split-Numbered_example =
    split-Numbered codecs globals long_message splitter halved refl refl halves_text (omega arith)
