-- ===== src/Udh/Safety.antt =====
-- UnmarshalBinary of pdu/UDH.go on any input: it never reads past its source.
use gosmpp.Prelude.{
  ℕ, zero, suc, ◌+◌, ◌≤◌, ◌≡◌, refl, [], ◌∷◌, length, length-take, length-drop, drop, arith, inl,
  inr, ◌⊎◌, ◌≢◌, true, ltb, ◌==◌, Bool-cases, ge→ltb,
}
use gosmpp.Outcome.{Bytes, Error, out_of_fuel}
use gosmpp.Buffer.Safety.{is_returned}
use mathlib.Core.Path.{subst}
use gosmpp.Udh.{InfoElement, Udh, unmarshal_element, unmarshal_loop, unmarshal_binary, prepend}
use gosmpp.Udh.Size.{size}

Sum-cases {ℓ κ} :
    {A : Type ℓ} {B : Type κ} (s : A ⊎ B) → ((a : A) × (s ≡ inl a)) ⊎ ((b : B) × (s ≡ inr b))
Sum-cases (inl a) = inl (a, refl)
Sum-cases (inr b) = inr (b, refl)

-- An element is as long as the number of bytes read, and lies inside the source.
unmarshal_element_takes :
    (src : Bytes) (ie : InfoElement) (r : ℕ)
    → unmarshal_element src ≡ inr (ie, r)
    → (r ≡ 2 + length ie.value) × (r ≤ length src)
unfolding unmarshal_element
unmarshal_element_takes [] ie r e = cc
unmarshal_element_takes (id ∷ []) ie r e = cc
unmarshal_element_takes (id ∷ ie_len ∷ value) ie r e = ground (arith, length-take ie_len value)

unmarshal_loop_takes :
    (fuel total read : ℕ) (src : Bytes) (u : Udh) (n : ℕ)
    → unmarshal_loop fuel total read src ≡ inr (u, n)
    → (n ≡ read + size u) × (size u ≤ length src)
unfolding unmarshal_loop prepend
unmarshal_loop_takes zero total read src u n e = ground arith
unmarshal_loop_takes (suc fuel) total read src u n e = elim (Sum-cases (unmarshal_element src)) [
  | inl (x, p) ↦ ground arith
  | inr ((ie, r), p) ↦ elim (Sum-cases (unmarshal_loop fuel total (read + r) (drop r src))) [
    | inl (x, q) ↦ ground arith
    | inr ((u', n'), q) ↦ ground (
      arith,
      unmarshal_element_takes src ie r p,
      unmarshal_loop_takes fuel total (read + r) (drop r src) u' n' q,
      length-drop r src,
    )
  ]
]

-- A header that UnmarshalBinary read, from any bytes, lies inside them: the number of bytes it
-- reports is the size of its elements and one, and at most the number of bytes there.
pub unmarshal_binary_takes :
    (src : Bytes) (u : Udh) (n : ℕ)
    → unmarshal_binary src ≡ inr (u, n)
    → (n ≡ size u + 1) × (n ≤ length src)
unfolding unmarshal_binary
unmarshal_binary_takes [] u n e = cc
unmarshal_binary_takes (udhl' ∷ src) u n e =
    ground (arith, unmarshal_loop_takes udhl' udhl' 1 src u n)

unmarshal_element-ne-out_of_fuel : (src : Bytes) → unmarshal_element src ≢ inl out_of_fuel
unfolding unmarshal_element
unmarshal_element-ne-out_of_fuel [] = λ e. cc
unmarshal_element-ne-out_of_fuel (id ∷ []) = λ e. cc
unmarshal_element-ne-out_of_fuel (id ∷ ie_len ∷ value) = ground arith

unmarshal_loop-ne-out_of_fuel :
    (fuel total read : ℕ) (src : Bytes)
    → total ≤ fuel + read
    → unmarshal_loop fuel total read src ≢ inl out_of_fuel
unfolding unmarshal_loop prepend
unmarshal_loop-ne-out_of_fuel zero total read src h = ground arith
unmarshal_loop-ne-out_of_fuel (suc fuel) total read src h =
    elim (Sum-cases (unmarshal_element src)) [
      | inl (x, p) ↦ ground (arith, unmarshal_element-ne-out_of_fuel src)
      | inr ((ie, r), p) ↦
          let ih : unmarshal_loop fuel total (read + r) (drop r src) ≢ inl out_of_fuel =
            unmarshal_loop-ne-out_of_fuel fuel total (read + r) (drop r src)
              (omega (arith, unmarshal_element_takes src ie r p)) in
          elim (Sum-cases (unmarshal_loop fuel total (read + r) (drop r src))) [
            | inl (x, q) ↦ ground arith
            | inr ((u', n'), q) ↦ ground arith
          ]
    ]

-- On any bytes the loop of UnmarshalBinary ends before its fuel, the length byte, is used up.
pub unmarshal_binary-ne-out_of_fuel : (src : Bytes) → unmarshal_binary src ≢ inl out_of_fuel
unfolding unmarshal_binary
unmarshal_binary-ne-out_of_fuel [] = λ e. cc
unmarshal_binary-ne-out_of_fuel (udhl' ∷ src) =
    ground (arith, unmarshal_loop-ne-out_of_fuel udhl' udhl' 1 src (omega arith))

abbrev pub ReturnedSum {ℓ} : {A : Type ℓ} → Error ⊎ A → Type 0
ReturnedSum (inl e) = is_returned e ≡ true
ReturnedSum (inr a) = Unit

unmarshal_element-ReturnedSum : (src : Bytes) → ReturnedSum (unmarshal_element src)
unfolding unmarshal_element
unmarshal_element-ReturnedSum [] = refl
unmarshal_element-ReturnedSum (id ∷ []) = refl
unmarshal_element-ReturnedSum (id ∷ ie_len ∷ value) =
    elim (Bool-cases (ltb (length value) ie_len)) [ inl e ↦ rw e refl | inr e ↦ rw e tt ]

prepend-ReturnedSum :
    (ie : InfoElement) (r : Error ⊎ (Udh × ℕ)) → ReturnedSum r → ReturnedSum (prepend ie r)
unfolding prepend
prepend-ReturnedSum ie (inl e) h = h
prepend-ReturnedSum ie (inr (u, n)) h = tt

unmarshal_loop-ReturnedSum :
    (fuel total read : ℕ) (src : Bytes)
    → total ≤ fuel + read
    → ReturnedSum (unmarshal_loop fuel total read src)
unfolding unmarshal_loop
unmarshal_loop-ReturnedSum zero total read src h = rw (ge→ltb read total (omega arith)) tt
unmarshal_loop-ReturnedSum (suc fuel) total read src h = elim (Bool-cases (ltb read total)) [
  | inr e ↦ rw e tt
  | inl e ↦ elim (Sum-cases (unmarshal_element src)) [
    | inl (x, p) ↦ rw (e, p) (subst ReturnedSum p (unmarshal_element-ReturnedSum src))
    | inr ((ie, r), p) ↦
        rw (e, p)
          (prepend-ReturnedSum ie _ (
            unmarshal_loop-ReturnedSum fuel total (read + r) (drop r src)
              (omega (arith, unmarshal_element_takes src ie r p))))
  ]
]

pub unmarshal_binary-ReturnedSum : (src : Bytes) → ReturnedSum (unmarshal_binary src)
unfolding unmarshal_binary
unmarshal_binary-ReturnedSum [] = refl
unmarshal_binary-ReturnedSum (udhl' ∷ src) = elim (Bool-cases (udhl' == 0)) [
  | inl e ↦ rw e refl
  | inr e ↦ elim (Bool-cases (ltb (length src) udhl')) [
    | inl e' ↦ rw (e, e') refl
    | inr e' ↦ rw (e, e') (unmarshal_loop-ReturnedSum udhl' udhl' 1 src (omega arith))
  ]
]
