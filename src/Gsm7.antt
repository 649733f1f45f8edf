-- ===== src/Gsm7.antt =====
-- The GSM 7-bit alphabet and its packing into octets, data/7bit.go. A text is the list of its runes.
pub mod Tables
pub mod Alphabet
pub mod Packing
pub mod Validity
pub mod Transforms
use gosmpp.Prelude.{
  ℕ, ◌+◌, ◌-◌, ◌*◌, ◌/◌, ◌%◌, ◌^◌, Bool, true, false, List, [], ◌∷◌, ◌++◌, Option, none, some, ◌==◌,
  ltb, if◌then◌else◌, length, ◌⊎◌, inl, inr,
}
use gosmpp.Gsm7.Tables.{lookup, forward_lookup, forward_escape, reverse_lookup, reverse_escape}

abbrev pub escape_sequence : ℕ
escape_sequence = 0x1B

-- ErrInvalidCharacter, ErrInvalidByte, and transform.ErrShortDst.
pub data Gsm7Error : Type 0 where
  invalid_character invalid_byte short_dst : Gsm7Error

unfoldable pub invalid_rune : ℕ → Option ℕ → Option ℕ → List ℕ → List ℕ
invalid_rune r (some v) escape rest = rest
invalid_rune r none (some v) rest = rest
invalid_rune r none none rest = r ∷ rest

-- ValidateGSM7String
unfoldable pub validate_gsm7_string : List ℕ → List ℕ
unfolding invalid_rune
validate_gsm7_string [] = []
validate_gsm7_string (r ∷ text) =
    invalid_rune r (lookup forward_lookup r) (lookup forward_escape r) (validate_gsm7_string text)

unfoldable pub unless_known : Option ℕ → List ℕ → List ℕ
unless_known (some r) invalid = []
unless_known none invalid = invalid

-- ValidateGSM7Buffer; the flag is whether the byte before was an escape sequence.
unfoldable pub validate_from : List ℕ → Bool → List ℕ
unfolding unless_known
validate_from [] false = []
validate_from [] true = escape_sequence ∷ []
validate_from (b ∷ l) true =
    unless_known (lookup reverse_escape b) (escape_sequence ∷ b ∷ []) ++ validate_from l false
validate_from (b ∷ l) false =
    let rest = validate_from l in
    if b == escape_sequence
    then rest true
    else unless_known (lookup reverse_lookup b) (b ∷ []) ++ rest false

unfoldable pub validate_gsm7_buffer : List ℕ → List ℕ
unfolding validate_from
validate_gsm7_buffer buffer = validate_from buffer false

unfoldable pub is_known : Option ℕ → Bool
is_known (some v) = true
is_known none = false

-- IsEscapeChar
unfoldable pub is_escape_char : ℕ → Bool
unfolding is_known
is_escape_char c = is_known (lookup forward_escape c)

-- GetEscapeChars
unfoldable pub get_escape_chars : List ℕ → List ℕ
unfolding is_escape_char
get_escape_chars [] = []
get_escape_chars (r ∷ text) =
    let rest = get_escape_chars text in if is_escape_char r then r ∷ rest else rest

-- The septets of a rune.
unfoldable pub septets_of : Option ℕ → Option ℕ → Option (List ℕ)
septets_of (some v) escape = some (v ∷ [])
septets_of none (some v) = some (escape_sequence ∷ v ∷ [])
septets_of none none = none

unfoldable pub prepend : Option (List ℕ) → Option (List ℕ) → Option (List ℕ)
prepend (some s) (some l) = some (s ++ l)
prepend (some s) none = none
prepend none l = none

-- The loop of the encoder's Transform.
unfoldable pub encode : List ℕ → Option (List ℕ)
unfolding septets_of prepend
encode [] = some []
encode (r ∷ text) =
    prepend (septets_of (lookup forward_lookup r) (lookup forward_escape r)) (encode text)

unfoldable pub push : Option ℕ → Option (List ℕ) → Option (List ℕ)
push (some r) (some l) = some (r ∷ l)
push (some r) none = none
push none l = none

-- The loop of the decoder's Transform; the flag is whether the septet before was an escape sequence.
unfoldable pub decode_from : List ℕ → Bool → Option (List ℕ)
unfolding push
decode_from [] false = some []
decode_from [] true = none
decode_from (b ∷ l) true = push (lookup reverse_escape b) (decode_from l false)
decode_from (b ∷ l) false =
    let rest = decode_from l in
    if b == escape_sequence then rest true else push (lookup reverse_lookup b) (rest false)

unfoldable pub decode : List ℕ → Option (List ℕ)
unfolding decode_from
decode septets = decode_from septets false

-- An octet of `pack`: what is left of one septet, and the low bits of the next above it.
abbrev pub octet : ℕ → ℕ → ℕ → ℕ
octet k a b = a % 128 / 2 ^ k + b % 2 ^ (k + 1) * 2 ^ (7 - k)

-- pack: eight septets give seven octets, and a shorter end as many octets as septets.
unfoldable pub pack : List ℕ → List ℕ
pack (a ∷ b ∷ c ∷ d ∷ e ∷ f ∷ g ∷ h ∷ l) =
    octet 0 a b
    ∷ octet 1 b c
    ∷ octet 2 c d
    ∷ octet 3 d e
    ∷ octet 4 e f
    ∷ octet 5 f g
    ∷ octet 6 g h
    ∷ pack l
pack (a ∷ b ∷ c ∷ d ∷ e ∷ f ∷ g ∷ []) =
    octet 0 a b
    ∷ octet 1 b c
    ∷ octet 2 c d
    ∷ octet 3 d e
    ∷ octet 4 e f
    ∷ octet 5 f g
    ∷ g % 128 / 64
    ∷ []
pack (a ∷ b ∷ c ∷ d ∷ e ∷ f ∷ []) =
    octet 0 a b ∷ octet 1 b c ∷ octet 2 c d ∷ octet 3 d e ∷ octet 4 e f ∷ f % 128 / 32 ∷ []
pack (a ∷ b ∷ c ∷ d ∷ e ∷ []) =
    octet 0 a b ∷ octet 1 b c ∷ octet 2 c d ∷ octet 3 d e ∷ e % 128 / 16 ∷ []
pack (a ∷ b ∷ c ∷ d ∷ []) = octet 0 a b ∷ octet 1 b c ∷ octet 2 c d ∷ d % 128 / 8 ∷ []
pack (a ∷ b ∷ c ∷ []) = octet 0 a b ∷ octet 1 b c ∷ c % 128 / 4 ∷ []
pack (a ∷ b ∷ []) = octet 0 a b ∷ b % 128 / 2 ∷ []
pack (a ∷ []) = a % 128 ∷ []
pack [] = []

-- A septet of `unpack`: the low bits of an octet, above the high bits of the octet before.
abbrev pub septet : ℕ → ℕ → ℕ → ℕ
septet k a b = b % 2 ^ (7 - k) * 2 ^ k + a % 256 / 2 ^ (8 - k)

-- unpack with the flag set: seven octets give eight septets, but seven if the last octet is 0, and a
-- shorter end as many septets as octets.
unfoldable pub unpack : List ℕ → List ℕ
unpack (a ∷ b ∷ c ∷ d ∷ e ∷ f ∷ g ∷ l) =
    let rest = unpack l in
    a % 128
    ∷ septet 1 a b
    ∷ septet 2 b c
    ∷ septet 3 c d
    ∷ septet 4 d e
    ∷ septet 5 e f
    ∷ septet 6 f g
    ∷ (if ltb 0 g then g % 256 / 2 ∷ rest else rest)
unpack (a ∷ b ∷ c ∷ d ∷ e ∷ f ∷ []) =
    a % 128 ∷ septet 1 a b ∷ septet 2 b c ∷ septet 3 c d ∷ septet 4 d e ∷ septet 5 e f ∷ []
unpack (a ∷ b ∷ c ∷ d ∷ e ∷ []) =
    a % 128 ∷ septet 1 a b ∷ septet 2 b c ∷ septet 3 c d ∷ septet 4 d e ∷ []
unpack (a ∷ b ∷ c ∷ d ∷ []) = a % 128 ∷ septet 1 a b ∷ septet 2 b c ∷ septet 3 c d ∷ []
unpack (a ∷ b ∷ c ∷ []) = a % 128 ∷ septet 1 a b ∷ septet 2 b c ∷ []
unpack (a ∷ b ∷ []) = a % 128 ∷ septet 1 a b ∷ []
unpack (a ∷ []) = a % 128 ∷ []
unpack [] = []

-- The size of a rune in UTF-8, which bytes.Buffer writes it in.
abbrev pub utf8_size : ℕ → ℕ
utf8_size r = if ltb r 0x80 then 1 else if ltb r 0x800 then 2 else if ltb r 0x10000 then 3 else 4

abbrev pub utf8_length : List ℕ → ℕ
utf8_length [] = 0
utf8_length (r ∷ text) = utf8_size r + utf8_length text

-- `math.Ceil(float64(len(septets)) * 7 / 8)`
abbrev pub packed_size : ℕ → ℕ
packed_size n = (n * 7 + 7) / 8

-- What a Transform writes: octets or runes, and nSrc.
abbrev pub Transformed : Type 0
Transformed = Gsm7Error ⊎ (List ℕ × ℕ)

encoded : Bool → ℕ → ℕ → Option (List ℕ) → Transformed
encoded packed dst n_src none = inl invalid_character
encoded packed dst n_src (some septets) =
    let n_dst = if packed then packed_size (length septets) else length septets in
    if ltb dst n_dst then inl short_dst else inr (if packed then pack septets else septets, n_src)

-- The encoder's Transform, into a buffer of `dst` octets; nSrc counts runes.
unfoldable pub encoder_transform : Bool → ℕ → List ℕ → Transformed
unfolding encoded
encoder_transform packed dst [] = inr ([], 0)
encoder_transform packed dst (r ∷ text) = encoded packed dst (length (r ∷ text)) (encode (r ∷ text))

decoded : ℕ → Option (List ℕ) → Transformed
decoded dst none = inl invalid_byte
decoded dst (some text) = if ltb dst (utf8_length text) then inl short_dst else inr (text, 0)

-- The decoder's Transform; it leaves nSrc at 0.
unfoldable pub decoder_transform : Bool → ℕ → List ℕ → Transformed
unfolding decoded
decoder_transform packed dst [] = inr ([], 0)
decoder_transform packed dst (b ∷ src) =
    decoded dst (decode (if packed then unpack (b ∷ src) else b ∷ src))
