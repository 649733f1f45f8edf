-- ===== src/Splitting/Limits.antt =====
-- The octets of the segments that gsm7bitPacked.EncodeSplit of data/codings.go gives.
use gosmpp.Prelude.{
  ℕ, suc, ◌+◌, ◌*◌, ◌/◌, ◌%◌, ◌≤◌, ◌^◌, ◌≡◌, refl, ap, ◌∙◌, sym, arith, Bool, true, false, not,
  ◌&&◌, Bool-cases, inl, inr, List, [], ◌∷◌, All, Option, none, some, ◌==◌, ==_iff, if◌then◌else◌,
  length, length-append,
}
use gosmpp.Gsm7.Tables.{Table, lookup, forward_lookup, forward_escape}
use gosmpp.Gsm7.{is_escape_char, is_known, encode, septets_of, prepend, pack, packed_size}
use gosmpp.Gsm7.Alphabet.{list-injective, both, not-true}
use gosmpp.Gsm7.Packing.{length-pack}
use gosmpp.Splitting.{
  septets_for, get_septet_count, shift_bits_left_one, shift_from, shifted, encode_packed_segment,
  encode_packed_all, encode_split_packed, append_segment, packed_segments, limit_or_default,
}
use gosmpp.Splitting.Segments.{get_septet_count-cons, count_none, packed_segments-fit}

-- No rune of the table stands in the escape table.
abbrev apart : Table → Bool
apart [] = true
apart ((r, v) ∷ l) = not (is_escape_char r) && apart l

apart-lookup :
    (table : Table) (r v : ℕ)
    → apart table ≡ true
    → lookup table r ≡ some v
    → is_escape_char r ≡ false
unfolding lookup
apart-lookup [] r v h e = cc
apart-lookup ((q, u) ∷ l) r v h e =
    let (here, later) = both (not (is_escape_char q)) (apart l) h in
    elim (Bool-cases (q == r)) [
      | inl same ↦ ap is_escape_char (sym ((==_iff q r).0 same)) ∙ not-true (is_escape_char q) here
      | inr other ↦ apart-lookup l r v later (rw other at e)
    ]

escape-lookup : (r v : ℕ) → lookup forward_escape r ≡ some v → is_escape_char r ≡ true
unfolding is_escape_char is_known
escape-lookup r v e = rw e refl

tables_apart : apart forward_lookup ≡ true
unfolding lookup is_escape_char is_known
tables_apart = refl

-- The septets of a text are as many as GetSeptetCount counts.
encode_count :
    (r : ℕ) (o e : Option ℕ) (rest : Option (List ℕ)) (text s : List ℕ)
    → lookup forward_lookup r ≡ o
    → lookup forward_escape r ≡ e
    → ((l : List ℕ) → rest ≡ some l → length l ≡ get_septet_count text)
    → prepend (septets_of o e) rest ≡ some s
    → length s ≡ septets_for r + get_septet_count text
unfolding septets_of prepend septets_for
encode_count r (some v) e (some l) text s look esc ih eq =
    let regular = apart-lookup forward_lookup r v tables_apart look in
    rw⁻¹ (list-injective eq) (rw regular (omega (arith, ih l refl)))
encode_count r none (some v) (some l) text s look esc ih eq =
    rw⁻¹ (list-injective eq) (rw (escape-lookup r v esc) (omega (arith, ih l refl)))
encode_count r (some v) e none text s look esc ih eq = cc
encode_count r none (some v) none text s look esc ih eq = cc
encode_count r none none rest text s look esc ih eq = cc

pub length-encode : (text s : List ℕ) → encode text ≡ some s → length s ≡ get_septet_count text
unfolding encode
length-encode [] s e = rw⁻¹ (list-injective e) (sym count_none)
length-encode (r ∷ text) s e =
    encode_count r (lookup forward_lookup r) (lookup forward_escape r) (encode text) text s refl
      refl (λ l k. length-encode text l k) e
    ∙ sym (get_septet_count-cons r text)

length-shift_from : (before : ℕ) (l : List ℕ) → length (shift_from before l) ≡ length l
unfolding shift_from
length-shift_from before [] = refl
length-shift_from before (b ∷ l) = ap suc (length-shift_from b l)

-- The documented behaviour of Encoder.Bytes: the octets are those of the packing Transform.
abbrev pub IsEncoder : (List ℕ → Option (List ℕ)) → Type 0
IsEncoder encoder =
    (text octets : List ℕ)
    → encoder text ≡ some octets
    → (s : List ℕ) × (encode text ≡ some s) × (octets ≡ pack s)

length-shift_bits_left_one :
    (l : List ℕ) (b : Bool) → length (shift_bits_left_one l b) ≡ length l + (if b then 1 else 0)
unfolding shift_bits_left_one
length-shift_bits_left_one l true =
    length-append (shift_from 0 l) _ ∙ omega (arith, length-shift_from 0 l)
length-shift_bits_left_one l false =
    length-append (shift_from 0 l) [] ∙ omega (arith, length-shift_from 0 l)

-- The last octet that shifting may add has room.
room_left :
    (n lim octet_limit : ℕ) (b : Bool)
    → lim * 7 ≤ octet_limit * 8
    → n ≤ lim
    → (not (n == lim) && (n % 8 == 0)) ≡ b
    → packed_size n + (if b then 1 else 0) ≤ octet_limit
room_left n lim octet_limit false el h e = omega arith
room_left n lim octet_limit true el h e =
    let (apart, whole) = both (not (n == lim)) (n % 8 == 0) e in
    let aligned : n % 8 ≡ 0 = (==_iff (n % 8) 0).0 whole in
    elim (Bool-cases (n == lim)) [
      | inl same ↦ cc (sym (not-true (n == lim) apart) ∙ same)
      | inr other ↦ omega (arith, ne_of n lim other)
    ]
  where
    ne_of : (n lim : ℕ) → (n == lim) ≡ false → (n ≡ lim → ⊥)
    ne_of n lim e same = cc (sym e ∙ (==_iff n lim).1 same)

lists-injective : {k l : List (List ℕ)} → some k ≡ some l → k ≡ l
lists-injective {k} e = ap (λ (o : Option (List (List ℕ))). elim o [ none ↦ k | some x ↦ x ]) e

append_fits :
    (octet_limit : ℕ) (o : Option (List ℕ)) (rest : Option (List (List ℕ))) (all : List (List ℕ))
    → ((octets : List ℕ) → o ≡ some octets → length octets ≤ octet_limit)
    → ((l : List (List ℕ)) → rest ≡ some l → All (λ octets. length octets ≤ octet_limit) l)
    → append_segment o rest ≡ some all
    → All (λ octets. length octets ≤ octet_limit) all
unfolding append_segment
append_fits octet_limit (some seg) (some l) all here later e =
    rw⁻¹ (lists-injective e) (here seg refl, later l refl)
append_fits octet_limit (some seg) none all here later e = cc
append_fits octet_limit none rest all here later e = cc

module _ (encoder : List ℕ → Option (List ℕ)) (h : IsEncoder encoder) where
  shifted-fits :
      (lim octet_limit : ℕ) (runes octets : List ℕ) (o : Option (List ℕ))
      → lim * 7 ≤ octet_limit * 8
      → get_septet_count runes ≤ lim
      → encoder runes ≡ o
      → shifted encoder lim runes o ≡ some octets
      → length octets ≤ octet_limit
  unfolding shifted
  shifted-fits lim octet_limit runes octets none el fits e q = cc
  shifted-fits lim octet_limit runes octets (some seg) el fits e q =
      let (s, encodes, packs) = h runes seg e in
      let n = get_septet_count runes in
      let lsb = not (n == lim) && (n % 8 == 0) in
      let sized : length seg ≡ packed_size n =
        ap (λ (l : List ℕ). length l) packs
        ∙ length-pack s
        ∙ ap packed_size (length-encode runes s encodes) in
      let shifts : length octets ≡ length seg + (if lsb then 1 else 0) =
        ap (λ (l : List ℕ). length l) (sym (list-injective q))
        ∙ length-shift_bits_left_one seg lsb in
      rw (shifts, sized) (room_left n lim octet_limit lsb el fits refl)

  encode_packed_all-fits :
      (lim octet_limit : ℕ) (segs all : List (List ℕ))
      → lim * 7 ≤ octet_limit * 8
      → All (λ seg. get_septet_count seg ≤ lim) segs
      → encode_packed_all encoder lim segs ≡ some all
      → All (λ octets. length octets ≤ octet_limit) all
  unfolding encode_packed_all encode_packed_segment
  encode_packed_all-fits lim octet_limit [] all el fit e = rw⁻¹ (lists-injective e) tt
  encode_packed_all-fits lim octet_limit (seg ∷ segs) all el (fits, fit) e =
      append_fits octet_limit (shifted encoder lim seg (encoder seg))
        (encode_packed_all encoder lim segs) all
        (λ octets k. shifted-fits lim octet_limit seg octets (encoder seg) el fits refl k)
        (λ l k. encode_packed_all-fits lim octet_limit segs l el fit k) e

  -- Each segment that EncodeSplit of the packed GSM 7-bit alphabet gives, with its bits shifted
  -- and the octet that shifting may add, has at most as many octets as the limit, or 134 for a
  -- limit below 64, if the encoder gives the octets of the packing Transform.
  pub encode_split_packed-fits :
      (text : List ℕ) (octet_limit : ℕ) (all : List (List ℕ))
      → encode_split_packed encoder text octet_limit ≡ some all
      → All (λ octets. length octets ≤ limit_or_default octet_limit) all
  unfolding encode_split_packed
  encode_split_packed-fits text octet_limit all e =
      let lim = limit_or_default octet_limit * 8 % 2 ^ 64 / 7 in
      let few : lim * 7 ≤ limit_or_default octet_limit * 8 = omega arith in
      encode_packed_all-fits lim (limit_or_default octet_limit)
        (packed_segments (length text) lim text) all few
        (packed_segments-fit (length text) lim text) e
