-- ===== src/Examples/Texts.antt =====
-- The text "a{1", which has a rune of the escape table, in the GSM 7-bit alphabet.
use gosmpp.Prelude.{
  ℕ, Option, none, some, ◌≤◌, ◌≡◌, refl, sym, All, false, arith, true, List, [], ◌∷◌, some, inr,
  length,
}
use gosmpp.Gsm7.Tables.{lookup}
use gosmpp.Gsm7.{
  validate_gsm7_string, invalid_rune, encode, septets_of, prepend, decode, pack, unpack,
  encoder_transform, decoder_transform, escape_sequence,
}
use gosmpp.Gsm7.{is_escape_char, is_known, get_escape_chars}
use gosmpp.Gsm7.Packing.{unpack-pack}
use gosmpp.Gsm7.Alphabet.{decode-encode, list-injective}
use gosmpp.Gsm7.Transforms.{octets_of, decoder_transform-octets_of}
use gosmpp.Splitting.{
  shift_bits_left_one, encode_split_packed, encode_packed_all, encode_packed_segment,
  append_segment, packed_segments, determine_to, step_back, scan, passed, ends_in_escape,
  septets_for, get_septet_count, limit_or_default,
}
use gosmpp.Splitting.Segments.{joined, packed_segments-joined}
use gosmpp.Splitting.Limits.{IsEncoder, encode_split_packed-fits}

abbrev text : List ℕ
text = 97 ∷ 123 ∷ 49 ∷ []

abbrev septets : List ℕ
septets = 97 ∷ escape_sequence ∷ 0x28 ∷ 49 ∷ []

valid : validate_gsm7_string text ≡ []
unfolding validate_gsm7_string invalid_rune lookup
valid = refl

encodes : encode text ≡ some septets
unfolding encode septets_of prepend lookup
encodes = refl

decode-encode_example : (s : List ℕ) × (encode text ≡ some s) × (decode s ≡ some text)
decode-encode_example = decode-encode text valid

-- A whole block of eight septets, and four more.
abbrev block : List ℕ
block = 97 ∷ 98 ∷ 99 ∷ 100 ∷ 101 ∷ 102 ∷ 103 ∷ 104 ∷ septets

unpack-pack_example : unpack (pack block) ≡ block
unpack-pack_example =
    unpack-pack block
      (
        omega arith,
        (
          omega arith,
          (
            omega arith,
            (
              omega arith,
              (
                omega arith,
                (
                  omega arith,
                  (
                    omega arith,
                    (omega arith, (omega arith, (omega arith, (omega arith, (omega arith, tt))))),
                  ),
                ),
              ),
            ),
          ),
        ),
      )
      (omega arith, tt)

decoder_transform-octets_of_example :
    (encoder_transform true 8 text ≡ inr (octets_of true septets, length text))
    × (decoder_transform true 8 (octets_of true septets) ≡ inr (text, 0))
decoder_transform-octets_of_example =
    decoder_transform-octets_of true 8 8 97 (123 ∷ 49 ∷ []) septets encodes tt (omega arith)
      (omega arith)

-- The encoder that packs the septets.
packing : Option (List ℕ) → Option (List ℕ)
packing none = none
packing (some s) = some (pack s)

packs : List ℕ → Option (List ℕ)
unfolding packing
packs runes = packing (encode runes)

packs-IsEncoder : IsEncoder packs
unfolding packs packing
packs-IsEncoder runes octets e = go (encode runes) e
  where
    go :
        (o : Option (List ℕ))
        → packing o ≡ some octets
        → (s : List ℕ) × (o ≡ some s) × (octets ≡ pack s)
    go none e = cc
    go (some s) e = (s, refl, sym (list-injective e))

abbrev segment : List ℕ
segment = shift_bits_left_one (pack septets) false

splits : encode_split_packed packs text 140 ≡ some (segment ∷ [])
unfolding encode_split_packed encode_packed_all encode_packed_segment append_segment packed_segments
    determine_to step_back scan passed ends_in_escape septets_for is_escape_char is_known
    get_septet_count get_escape_chars lookup packs packing encode septets_of prepend
    gosmpp.Splitting.shifted shift_bits_left_one
splits = refl

encode_split_packed-fits_example :
    All (λ octets. length octets ≤ limit_or_default 140) (segment ∷ [])
encode_split_packed-fits_example =
    encode_split_packed-fits packs packs-IsEncoder text 140 (segment ∷ []) splits

packed_segments-joined_example : joined (packed_segments 12 4 block) ≡ block
packed_segments-joined_example = packed_segments-joined 12 4 block (omega arith) (omega arith)
