-- ===== src/Session/Decimal.antt =====
-- strconv.Itoa of a sequence number (request_store.go): two sequence numbers never have the same text.
use gosmpp.Prelude.{
  ℕ, zero, suc, ◌+◌, ◌*◌, ◌-◌, ◌/◌, ◌%◌, ◌^◌, ◌≤◌, ◌<◌, ◌≡◌, ◌≢◌, refl, ap, sym, ◌∙◌, [], ◌∷◌, ◌++◌,
  ltb, if◌then◌else◌, arith, Bool-cases, inl, inr,
}
use mathlib.Core.Path.{subst}
use gosmpp.Outcome.{Bytes}
use gosmpp.Buffer.{is_negative32}

-- The decimal digits of a number below 10 ^ fuel.
unfoldable pub digits : ℕ → ℕ → Bytes
digits zero n = []
digits (suc fuel) n =
    let rest = digits fuel (n / 10) in
    if ltb n 10 then (48 + n) ∷ [] else rest ++ ((48 + n % 10) ∷ [])

-- The text of an int32, given as its bit pattern.
unfoldable pub itoa : ℕ → Bytes
unfolding digits
itoa v = if is_negative32 v then 45 ∷ digits 10 (2 ^ 32 - v) else digits 10 v

-- The number that digits stand for.
value : ℕ → Bytes → ℕ
value acc [] = acc
value acc (d ∷ ds) = value (acc * 10 + (d - 48)) ds

value-append :
    (acc : ℕ) (ds : Bytes) (d : ℕ) → value acc (ds ++ (d ∷ [])) ≡ value acc ds * 10 + (d - 48)
unfolding value
value-append acc [] d = refl
value-append acc (e ∷ ds) d = value-append (acc * 10 + (e - 48)) ds d

abbrev pow10 : ℕ → ℕ
pow10 zero = 1
pow10 (suc n) = 10 * pow10 n

value-digits : (fuel n : ℕ) → n < pow10 fuel → value 0 (digits fuel n) ≡ n
unfolding digits
value-digits zero n h = unfold value in omega arith
value-digits (suc fuel) n h = elim (Bool-cases (ltb n 10)) [
  | inl e ↦ rw e (unfold value in omega arith)
  | inr e ↦
      rw
        (
          e,
          value-append 0 (digits fuel (n / 10)) (48 + n % 10),
          value-digits fuel (n / 10) (omega arith),
        )
        (omega arith)
]

-- The first character is a digit, so it is no minus sign.
abbrev Unsigned : Bytes → Type 0
Unsigned [] = ⊥
Unsigned (c ∷ cs) = 48 ≤ c

append-Unsigned : (ds es : Bytes) → Unsigned ds → Unsigned (ds ++ es)
append-Unsigned [] es h = absurd h
append-Unsigned (d ∷ ds) es h = h

digits-Unsigned : (fuel n : ℕ) → Unsigned (digits (suc fuel) n)
unfolding digits
digits-Unsigned zero n = elim (Bool-cases (ltb n 10)) [
  | inl e ↦ rw e (omega arith)
  | inr e ↦ rw e (omega arith)
]
digits-Unsigned (suc fuel) n = elim (Bool-cases (ltb n 10)) [
  | inl e ↦ rw e (omega arith)
  | inr e ↦ rw e (append-Unsigned _ _ (digits-Unsigned fuel (n / 10)))
]

tail_of : Bytes → Bytes
tail_of [] = []
tail_of (c ∷ cs) = cs

digits-injective : (v w : ℕ) → v < pow10 10 → w < pow10 10 → digits 10 v ≡ digits 10 w → v ≡ w
digits-injective v w hv hw e = sym (value-digits 10 v hv) ∙ ap (value 0) e ∙ value-digits 10 w hw

not_signed : (v : ℕ) (ds : Bytes) → 45 ∷ ds ≢ digits 10 v
not_signed v ds e =
    let h : 48 ≤ 45 = subst Unsigned (sym e) (digits-Unsigned 9 v) in omega (arith, h)

pub itoa-injective : (v w : ℕ) → v < 2 ^ 32 → w < 2 ^ 32 → itoa v ≡ itoa w → v ≡ w
unfolding itoa tail_of
itoa-injective v w hv hw e = elim (Bool-cases (is_negative32 v)) [
  | inl nv ↦ elim (Bool-cases (is_negative32 w)) [
    | inl nw ↦
        let same : 2 ^ 32 - v ≡ 2 ^ 32 - w =
          digits-injective _ _ (omega arith) (omega arith) (ap tail_of (rw (nv, nw) at e)) in
        omega (arith, same)
    | inr nw ↦ absurd (not_signed w _ (rw (nv, nw) at e))
  ]
  | inr nv ↦ elim (Bool-cases (is_negative32 w)) [
    | inl nw ↦ absurd (not_signed v _ (sym (rw (nv, nw) at e)))
    | inr nw ↦ digits-injective _ _ (omega arith) (omega arith) (rw (nv, nw) at e)
  ]
]
