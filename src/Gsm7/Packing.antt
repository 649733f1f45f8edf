-- ===== src/Gsm7/Packing.antt =====
-- What `unpack` of data/7bit.go makes of the octets of `pack`.
use gosmpp.Prelude.{
  ℕ, ◌+◌, ◌*◌, ◌/◌, ◌%◌, ◌<◌, ◌≤◌, ◌≡◌, refl, ◌∙◌, ltb, lt→ltb, List, [], ◌∷◌, All, length,
  if◌then◌else◌, arith,
}
use gosmpp.Gsm7.{octet, septet, pack, unpack, packed_size}

abbrev pub AreSeptets : List ℕ → Type 0
AreSeptets = All (λ s. s < 128)

-- The blocks that an octet shows to be full or not: of eight septets the last two leave a bit in the
-- last octet, and the seventh of a last block of seven leaves none.
abbrev pub IsUnambiguous : List ℕ → Type 0
IsUnambiguous (a ∷ b ∷ c ∷ d ∷ e ∷ f ∷ g ∷ h ∷ l) = (64 ≤ g + 64 * h) × IsUnambiguous l
IsUnambiguous (a ∷ b ∷ c ∷ d ∷ e ∷ f ∷ g ∷ []) = g < 64
IsUnambiguous _ = Unit

first_septet : (a b : ℕ) → a < 128 → octet 0 a b % 128 ≡ a
first_septet a b h = omega arith

only_septet : (a : ℕ) → a < 128 → a % 128 % 128 ≡ a
only_septet a h = omega arith

septet_1 : (a b c : ℕ) → a < 128 → b < 128 → septet 1 (octet 0 a b) (octet 1 b c) ≡ b
septet_1 a b c ha hb = omega arith

septet_2 : (a b c : ℕ) → a < 128 → b < 128 → septet 2 (octet 1 a b) (octet 2 b c) ≡ b
septet_2 a b c ha hb = omega arith

septet_3 : (a b c : ℕ) → a < 128 → b < 128 → septet 3 (octet 2 a b) (octet 3 b c) ≡ b
septet_3 a b c ha hb = omega arith

septet_4 : (a b c : ℕ) → a < 128 → b < 128 → septet 4 (octet 3 a b) (octet 4 b c) ≡ b
septet_4 a b c ha hb = omega arith

septet_5 : (a b c : ℕ) → a < 128 → b < 128 → septet 5 (octet 4 a b) (octet 5 b c) ≡ b
septet_5 a b c ha hb = omega arith

septet_6 : (a b c : ℕ) → a < 128 → b < 128 → septet 6 (octet 5 a b) (octet 6 b c) ≡ b
septet_6 a b c ha hb = omega arith

end_1 : (a b : ℕ) → a < 128 → b < 128 → septet 1 (octet 0 a b) (b % 128 / 2) ≡ b
end_1 a b ha hb = omega arith

end_2 : (a b : ℕ) → a < 128 → b < 128 → septet 2 (octet 1 a b) (b % 128 / 4) ≡ b
end_2 a b ha hb = omega arith

end_3 : (a b : ℕ) → a < 128 → b < 128 → septet 3 (octet 2 a b) (b % 128 / 8) ≡ b
end_3 a b ha hb = omega arith

end_4 : (a b : ℕ) → a < 128 → b < 128 → septet 4 (octet 3 a b) (b % 128 / 16) ≡ b
end_4 a b ha hb = omega arith

end_5 : (a b : ℕ) → a < 128 → b < 128 → septet 5 (octet 4 a b) (b % 128 / 32) ≡ b
end_5 a b ha hb = omega arith

end_6 : (a b : ℕ) → a < 128 → b < 128 → septet 6 (octet 5 a b) (b % 128 / 64) ≡ b
end_6 a b ha hb = omega arith

eighth : (g h : ℕ) → g < 128 → h < 128 → octet 6 g h % 256 / 2 ≡ h
eighth g h hg hh = omega arith

not_empty : (g h : ℕ) → g < 128 → h < 128 → 64 ≤ g + 64 * h → 0 < octet 6 g h
not_empty g h hg hh full = omega arith

full_block :
    (n : ℕ) (rest : List ℕ)
    → 0 < n
    → (if ltb 0 n then n % 256 / 2 ∷ rest else rest) ≡ n % 256 / 2 ∷ rest
full_block n rest full = rw (lt→ltb 0 n full) refl

short_block : (n : ℕ) → n ≡ 0 → (if ltb 0 n then n % 256 / 2 ∷ [] else []) ≡ []
short_block n e = rw e refl

-- Septets below 128 are unpacked as they were packed, if in every block of eight the seventh has
-- its high bit or the eighth is not 0, and in a last block of seven the seventh has no high bit.
pub unpack-pack :
    (septets : List ℕ)
    → AreSeptets septets
    → IsUnambiguous septets
    → unpack (pack septets) ≡ septets
unfolding pack unpack
unpack-pack [] hs u = refl
unpack-pack (a ∷ []) (ha, hs) u = λ i. only_septet a ha i ∷ []
unpack-pack (a ∷ b ∷ []) (ha, (hb, hs)) u = λ i. first_septet a b ha i ∷ end_1 a b ha hb i ∷ []
unpack-pack (a ∷ b ∷ c ∷ []) (ha, (hb, (hc, hs))) u =
    λ i. first_septet a b ha i ∷ septet_1 a b c ha hb i ∷ end_2 b c hb hc i ∷ []
unpack-pack (a ∷ b ∷ c ∷ d ∷ []) (ha, (hb, (hc, (hd, hs)))) u = λ i.
    first_septet a b ha i ∷ septet_1 a b c ha hb i ∷ septet_2 b c d hb hc i ∷ end_3 c d hc hd i ∷ []
unpack-pack (a ∷ b ∷ c ∷ d ∷ e ∷ []) (ha, (hb, (hc, (hd, (he, hs))))) u = λ i.
    first_septet a b ha i
    ∷ septet_1 a b c ha hb i
    ∷ septet_2 b c d hb hc i
    ∷ septet_3 c d e hc hd i
    ∷ end_4 d e hd he i
    ∷ []
unpack-pack (a ∷ b ∷ c ∷ d ∷ e ∷ f ∷ []) (ha, (hb, (hc, (hd, (he, (hf, hs)))))) u = λ i.
    first_septet a b ha i
    ∷ septet_1 a b c ha hb i
    ∷ septet_2 b c d hb hc i
    ∷ septet_3 c d e hc hd i
    ∷ septet_4 d e f hd he i
    ∷ end_5 e f he hf i
    ∷ []
unpack-pack (a ∷ b ∷ c ∷ d ∷ e ∷ f ∷ g ∷ []) (ha, (hb, (hc, (hd, (he, (hf, (hg, hs))))))) u = λ i.
    first_septet a b ha i
    ∷ septet_1 a b c ha hb i
    ∷ septet_2 b c d hb hc i
    ∷ septet_3 c d e hc hd i
    ∷ septet_4 d e f hd he i
    ∷ septet_5 e f g he hf i
    ∷ end_6 f g hf hg i
    ∷ short_block (g % 128 / 64) (omega arith) i
unpack-pack (a ∷ b ∷ c ∷ d ∷ e ∷ f ∷ g ∷ h ∷ l) (ha, (hb, (hc, (hd, (he, (hf, (hg, (hh, hs))))))))
      (full, u) =
    let tail =
      full_block (octet 6 g h) (unpack (pack l)) (not_empty g h hg hh full)
      ∙ (λ i. eighth g h hg hh i ∷ unpack-pack l hs u i) in
    λ i.
      first_septet a b ha i
      ∷ septet_1 a b c ha hb i
      ∷ septet_2 b c d hb hc i
      ∷ septet_3 c d e hc hd i
      ∷ septet_4 d e f hd he i
      ∷ septet_5 e f g he hf i
      ∷ septet_6 f g h hf hg i
      ∷ tail i

last_octet : (g : ℕ) → g % 128 / 64 ≡ octet 6 g 0
last_octet g = omega arith

-- The septet 0, an @, at the end of a block of eight leaves no trace.
pub pack_at :
    (a b c d e f g : ℕ)
    → pack (a ∷ b ∷ c ∷ d ∷ e ∷ f ∷ g ∷ []) ≡ pack (a ∷ b ∷ c ∷ d ∷ e ∷ f ∷ g ∷ 0 ∷ [])
unfolding pack
pack_at a b c d e f g = λ i.
    octet 0 a b
    ∷ octet 1 b c
    ∷ octet 2 c d
    ∷ octet 3 d e
    ∷ octet 4 e f
    ∷ octet 5 f g
    ∷ last_octet g i
    ∷ []

-- pack writes as many octets as Transform has made room for.
pub length-pack : (septets : List ℕ) → length (pack septets) ≡ packed_size (length septets)
unfolding pack
length-pack [] = refl
length-pack (a ∷ []) = refl
length-pack (a ∷ b ∷ []) = refl
length-pack (a ∷ b ∷ c ∷ []) = refl
length-pack (a ∷ b ∷ c ∷ d ∷ []) = refl
length-pack (a ∷ b ∷ c ∷ d ∷ e ∷ []) = refl
length-pack (a ∷ b ∷ c ∷ d ∷ e ∷ f ∷ []) = refl
length-pack (a ∷ b ∷ c ∷ d ∷ e ∷ f ∷ g ∷ []) = refl
length-pack (a ∷ b ∷ c ∷ d ∷ e ∷ f ∷ g ∷ h ∷ l) = omega (arith, length-pack l)
