-- ===== src/Udh/Size.antt =====
-- The size of a header: what UDHL and MarshalBinary of pdu/UDH.go compute in closed form.
use gosmpp.Prelude.{
  ℕ, ◌+◌, ◌≤◌, ◌<◌, ◌≡◌, refl, [], ◌∷◌, ◌++◌, leb, length, length-append, arith, none, some, inl,
  inr, if◌then◌else◌,
}
use gosmpp.Outcome.{Bytes, udh_limit}
use gosmpp.Udh.{InfoElement, Udh, udhl_loop, udhl, marshal_loop, marshal_binary}

-- The octets of the elements, each with its identifier and its length byte.
abbrev pub size : Udh → ℕ
size [] = 0
size (ie ∷ u) = 2 + length ie.value + size u

abbrev pub elements : Udh → Bytes
elements [] = []
elements (ie ∷ u) = ie.id ∷ length ie.value ∷ (ie.value ++ elements u)

pub length-elements : (u : Udh) → length (elements u) ≡ size u
length-elements [] = refl
length-elements (ie ∷ u) = omega (arith, length-append ie.value (elements u), length-elements u)

udhl_loop-size :
    (l : ℕ) (u : Udh)
    → l ≤ 255
    → udhl_loop l u ≡ (if leb (l + size u) 255 then some (l + size u + 1) else none)
unfolding udhl_loop
udhl_loop-size l [] h = ground arith
udhl_loop-size l (ie ∷ u) h = ground (arith, udhl_loop-size (l + (2 + length ie.value)) u)

-- UDHL of a header with an element is the octets of its elements and one more for the length byte,
-- and -1 if they are more than 255.
pub udhl-size :
    (ie : InfoElement) (u : Udh)
    → udhl (ie ∷ u) ≡ (if leb (size (ie ∷ u)) 255 then some (size (ie ∷ u) + 1) else none)
unfolding udhl
udhl-size ie u = ground (arith, udhl_loop-size 0 (ie ∷ u))

pub marshal_loop-elements :
    (l : ℕ) (u : Udh) → l + size u ≤ 255 → marshal_loop l u ≡ (elements u, l + size u)
unfolding marshal_loop
marshal_loop-elements l [] h = ground arith
marshal_loop-elements l (ie ∷ u) h =
    ground (arith, marshal_loop-elements (l + (2 + length ie.value)) u)

-- MarshalBinary of a header with an element gives the number of octets of its elements and then
-- each element as identifier, length and data, and an error if these are more than 255 octets.
pub marshal_binary-elements :
    (ie : InfoElement) (u : Udh)
    → marshal_binary (ie ∷ u)
      ≡ (if leb (size (ie ∷ u)) 255 then inr (size (ie ∷ u) ∷ elements (ie ∷ u)) else inl udh_limit)
unfolding marshal_binary
marshal_binary-elements ie u = ground (arith, udhl-size ie u, marshal_loop-elements 0 (ie ∷ u))

-- The two in one case: a header with an element, within the limit.
pub udhl-eq-size : (u : Udh) → 0 < size u → size u ≤ 255 → udhl u ≡ some (size u + 1)
udhl-eq-size [] pos h = absurd (omega arith)
udhl-eq-size (ie ∷ u) pos h = ground (arith, udhl-size ie u)

pub marshal_binary-eq-elements :
    (u : Udh) → 0 < size u → size u ≤ 255 → marshal_binary u ≡ inr (size u ∷ elements u)
marshal_binary-eq-elements [] pos h = absurd (omega arith)
marshal_binary-eq-elements (ie ∷ u) pos h = ground (arith, marshal_binary-elements ie u)
