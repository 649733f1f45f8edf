-- ===== src/Gsm7/Alphabet.antt =====
-- Encoding and decoding of data/7bit.go, and what its two validations say about them.
use gosmpp.Prelude.{
  ℕ, ◌≡◌, refl, ap, ◌∙◌, Bool, true, false, not, ◌&&◌, Bool-cases, inl, inr, List, [], ◌∷◌, Option,
  none, some, ◌<◌, ltb, ltb→lt, arith, ◌==◌, ==_iff,
}
use gosmpp.Gsm7.Tables.{
  Table, lookup, forward_lookup, forward_escape, reverse_lookup, reverse_escape,
}
use gosmpp.Gsm7.{
  escape_sequence, validate_gsm7_string, invalid_rune, encode, septets_of, prepend, decode,
  decode_from, push, pack, unpack,
}
use gosmpp.Gsm7.Packing.{AreSeptets, IsUnambiguous, unpack-pack}

abbrev is_rune : ℕ → Option ℕ → Bool
is_rune r none = false
is_rune r (some q) = q == r

is_rune-eq : (r : ℕ) (o : Option ℕ) → is_rune r o ≡ true → o ≡ some r
is_rune-eq r none e = cc
is_rune-eq r (some q) e = ap some ((==_iff q r).0 e)

-- Every entry is found back in the other table, and its septet is no escape sequence.
abbrev inverts : Table → Table → Bool
inverts [] back = true
inverts ((r, v) ∷ l) back =
    (not (v == escape_sequence) && is_rune r (lookup back v)) && inverts l back

pub both : (a b : Bool) → (a && b) ≡ true → (a ≡ true) × (b ≡ true)
both true b e = (refl, e)
both false b e = cc

pub not-true : (b : Bool) → not b ≡ true → b ≡ false
not-true true e = cc
not-true false e = refl

some-injective : {a b : ℕ} → some a ≡ some b → a ≡ b
some-injective {a} e = ap (λ (o : Option ℕ). elim o [ none ↦ a | some x ↦ x ]) e

inverts-lookup :
    (table back : Table) (r v : ℕ)
    → inverts table back ≡ true
    → lookup table r ≡ some v
    → ((v == escape_sequence) ≡ false) × (lookup back v ≡ some r)
unfolding lookup
inverts-lookup [] back r v h e = cc
inverts-lookup ((q, u) ∷ l) back r v h e =
    let (here, later) =
      both (not (u == escape_sequence) && is_rune q (lookup back u)) (inverts l back) h in
    let (plain, found) = both (not (u == escape_sequence)) (is_rune q (lookup back u)) here in
    elim (Bool-cases (q == r)) [
      | inl same ↦
          let is_v : u ≡ v = some-injective (rw same at e) in
          let is_r : q ≡ r = (==_iff q r).0 same in
          rw⁻¹ (is_v, is_r)
            (not-true (u == escape_sequence) plain, is_rune-eq q (lookup back u) found)
      | inr other ↦ inverts-lookup l back r v later (rw other at e)
    ]

lookup_inverts : inverts forward_lookup reverse_lookup ≡ true
unfolding lookup
lookup_inverts = refl

escape_inverts : inverts forward_escape reverse_escape ≡ true
unfolding lookup
escape_inverts = refl

pub list-injective : {k l : List ℕ} → some k ≡ some l → k ≡ l
list-injective {k} e = ap (λ (o : Option (List ℕ)). elim o [ none ↦ k | some x ↦ x ]) e

decode_rune :
    (r : ℕ) (o e : Option ℕ) (rest : Option (List ℕ)) (text s : List ℕ)
    → lookup forward_lookup r ≡ o
    → lookup forward_escape r ≡ e
    → ((l : List ℕ) → rest ≡ some l → decode_from l false ≡ some text)
    → prepend (septets_of o e) rest ≡ some s
    → decode_from s false ≡ some (r ∷ text)
unfolding decode_from septets_of prepend push
decode_rune r (some v) e (some l) text s look esc ih eq =
    let (plain, found) = inverts-lookup forward_lookup reverse_lookup r v lookup_inverts look in
    rw⁻¹ (list-injective eq) (rw (plain, found, ih l refl) refl)
decode_rune r none (some v) (some l) text s look esc ih eq =
    let (_, found) = inverts-lookup forward_escape reverse_escape r v escape_inverts esc in
    rw⁻¹ (list-injective eq) (rw (found, ih l refl) refl)
decode_rune r (some v) e none text s look esc ih eq = cc
decode_rune r none (some v) none text s look esc ih eq = cc
decode_rune r none none rest text s look esc ih eq = cc

pub decode_encoded : (text s : List ℕ) → encode text ≡ some s → decode_from s false ≡ some text
unfolding encode decode_from
decode_encoded [] s e = rw⁻¹ (list-injective e) refl
decode_encoded (r ∷ text) s e =
    decode_rune r (lookup forward_lookup r) (lookup forward_escape r) (encode text) text s refl refl
      (λ l k. decode_encoded text l k) e

encode_rune :
    (r : ℕ) (o e : Option ℕ) (rest : Option (List ℕ)) (invalid : List ℕ)
    → (invalid ≡ [] → (l : List ℕ) × (rest ≡ some l))
    → invalid_rune r o e invalid ≡ []
    → (s : List ℕ) × (prepend (septets_of o e) rest ≡ some s)
unfolding invalid_rune septets_of prepend
encode_rune r (some v) e rest invalid ih valid = let (l, k) = ih valid in (v ∷ l, rw k refl)
encode_rune r none (some v) rest invalid ih valid =
    let (l, k) = ih valid in (escape_sequence ∷ v ∷ l, rw k refl)
encode_rune r none none rest invalid ih valid = cc

encode_valid :
    (text : List ℕ) → validate_gsm7_string text ≡ [] → (s : List ℕ) × (encode text ≡ some s)
unfolding encode validate_gsm7_string
encode_valid [] valid = ([], refl)
encode_valid (r ∷ text) valid =
    encode_rune r (lookup forward_lookup r) (lookup forward_escape r) (encode text)
      (validate_gsm7_string text) (encode_valid text) valid

-- A text in which ValidateGSM7String finds nothing encodes, and its septets decode to the text.
pub decode-encode :
    (text : List ℕ)
    → validate_gsm7_string text ≡ []
    → (s : List ℕ) × (encode text ≡ some s) × (decode s ≡ some text)
unfolding decode
decode-encode text valid = let (s, e) = encode_valid text valid in (s, e, decode_encoded text s e)

-- Every septet of a table is below 128.
abbrev small : Table → Bool
small [] = true
small ((r, v) ∷ l) = ltb v 128 && small l

small-lookup : (table : Table) (r v : ℕ) → small table ≡ true → lookup table r ≡ some v → v < 128
unfolding lookup
small-lookup [] r v h e = cc
small-lookup ((q, u) ∷ l) r v h e =
    let (here, later) = both (ltb u 128) (small l) h in
    elim (Bool-cases (q == r)) [
      | inl same ↦ rw (some-injective (rw same at e)) at (ltb→lt u 128 here)
      | inr other ↦ small-lookup l r v later (rw other at e)
    ]

septets_small :
    (r : ℕ) (o e : Option ℕ) (rest : Option (List ℕ)) (s : List ℕ)
    → lookup forward_lookup r ≡ o
    → lookup forward_escape r ≡ e
    → ((l : List ℕ) → rest ≡ some l → AreSeptets l)
    → prepend (septets_of o e) rest ≡ some s
    → AreSeptets s
unfolding septets_of prepend
septets_small r (some v) e (some l) s look esc ih eq =
    rw⁻¹ (list-injective eq) (small-lookup forward_lookup r v refl look, ih l refl)
septets_small r none (some v) (some l) s look esc ih eq =
    rw⁻¹ (list-injective eq) (omega arith, (small-lookup forward_escape r v refl esc, ih l refl))
septets_small r (some v) e none s look esc ih eq = cc
septets_small r none (some v) none s look esc ih eq = cc
septets_small r none none rest s look esc ih eq = cc

encode-AreSeptets : (text s : List ℕ) → encode text ≡ some s → AreSeptets s
unfolding encode
encode-AreSeptets [] s e = rw⁻¹ (list-injective e) tt
encode-AreSeptets (r ∷ text) s e =
    septets_small r (lookup forward_lookup r) (lookup forward_escape r) (encode text) s refl refl
      (λ l k. encode-AreSeptets text l k) e

pub decode-unpack :
    (text s : List ℕ)
    → encode text ≡ some s
    → IsUnambiguous s
    → decode (unpack (pack s)) ≡ some text
unfolding decode
decode-unpack text s e u =
    ap decode (unpack-pack s (encode-AreSeptets text s e) u) ∙ decode_encoded text s e
