-- ===== src/Gsm7/Transforms.antt =====
-- The two Transforms of data/7bit.go one after the other.
use gosmpp.Prelude.{
  ℕ, ◌≤◌, ◌≡◌, refl, ap, arith, ge→ltb, Bool, true, false, inr, List, [], ◌∷◌, some, if◌then◌else◌,
  length,
}
use gosmpp.Gsm7.{
  decode, decode_from, encode, pack, unpack, packed_size, encoded, decoded, encoder_transform,
  decoder_transform, utf8_length,
}
use gosmpp.Gsm7.Alphabet.{decode_encoded, decode-unpack, list-injective}
use gosmpp.Gsm7.Packing.{IsUnambiguous}

-- Packing loses nothing of the septets.
abbrev pub Survives : Bool → List ℕ → Type 0
Survives true s = IsUnambiguous s
Survives false s = Unit

abbrev pub octets_of : Bool → List ℕ → List ℕ
octets_of true s = pack s
octets_of false s = s

encoder_octets :
    (packed : Bool) (dst r : ℕ) (text s : List ℕ)
    → encode (r ∷ text) ≡ some s
    → length s ≤ dst
    → encoder_transform packed dst (r ∷ text) ≡ inr (octets_of packed s, length (r ∷ text))
unfolding encoder_transform encoded
encoder_octets true dst r text s e room =
    rw (e, ge→ltb dst (packed_size (length s)) (omega arith)) refl
encoder_octets false dst r text s e room = rw (e, ge→ltb dst (length s) room) refl

decoder_text :
    (packed : Bool) (dst : ℕ) (octets text : List ℕ)
    → decode (if packed then unpack octets else octets) ≡ some text
    → utf8_length text ≤ dst
    → decoder_transform packed dst octets ≡ inr (text, 0)
unfolding decoder_transform decoded decode decode_from unpack
decoder_text packed dst (b ∷ src) text e room = rw (e, ge→ltb dst (utf8_length text) room) refl
decoder_text true dst [] text e room = ap (λ x. inr (x, 0)) (list-injective e)
decoder_text false dst [] text e room = ap (λ x. inr (x, 0)) (list-injective e)

decode_octets :
    (packed : Bool) (text s : List ℕ)
    → encode text ≡ some s
    → Survives packed s
    → decode (if packed then unpack (octets_of packed s) else octets_of packed s) ≡ some text
unfolding decode
decode_octets true text s e u = decode-unpack text s e u
decode_octets false text s e u = decode_encoded text s e

-- A text with at least one rune, all of them of the GSM 7-bit alphabet, is given back by the
-- decoder's Transform from the octets of the encoder's, unpacked always, and packed if the septets
-- are such that their blocks of eight leave a bit in the last octet and a last block of seven
-- leaves none, where both buffers are large enough.
pub decoder_transform-octets_of :
    (packed : Bool) (dst dst' r : ℕ) (text s : List ℕ)
    → encode (r ∷ text) ≡ some s
    → Survives packed s
    → length s ≤ dst
    → utf8_length (r ∷ text) ≤ dst'
    → (encoder_transform packed dst (r ∷ text) ≡ inr (octets_of packed s, length (r ∷ text)))
      × (decoder_transform packed dst' (octets_of packed s) ≡ inr (r ∷ text, 0))
decoder_transform-octets_of packed dst dst' r text s e u room room' = (
  encoder_octets packed dst r text s e room,
  decoder_text packed dst' (octets_of packed s) (r ∷ text) (decode_octets packed (r ∷ text) s e u)
      room',
)
