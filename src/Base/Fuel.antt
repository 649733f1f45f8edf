-- ===== src/Base/Fuel.antt =====
-- The loop of unmarshalOptionalParam of pdu/PDU.go ends: a field takes bytes.
use gosmpp.Prelude.{
  ℕ, zero, suc, ◌+◌, ◌≤◌, ◌≡◌, ◌≢◌, refl, ap, ◌∙◌, [], ◌∷◌, length, length-append, length-drop,
  Option, none, some, arith, inl, inr, Bool-cases,
}
use gosmpp.Outcome.{
  Bytes, Outcome, Reader, ok, err, out_of_fuel, and_then, and_then-eq-ok, ok-injective, pure, ◌>>=◌,
}
use gosmpp.Buffer.{read_n, read_short, size_short, is_negative16}
use gosmpp.Buffer.Consumption.{
  Consumes, Consumes-err, Consumes-bind, Consumes-pure, unread, short-Consumes,
}
use gosmpp.Tlv
use gosmpp.Tlv.{Field, read_value}
use gosmpp.Tlv.RoundTrip.{value-Consumes}
use gosmpp.Base.{Options, store, stored, option_field, option_loop, unmarshal_optional_param}

-- `m` uses no fuel of its own.
record Fuelless {ℓ} {A : Type ℓ} (m : Reader A) : Type ℓ where
  apply : (b rest : Bytes) → m b ≢ err out_of_fuel rest

module _ {ℓ} {A : Type ℓ} where
  Fuelless-pure : (a : A) → Fuelless (pure a)
  unfolding pure
  Fuelless-pure a = record { apply = λ b rest e. cc }

  Fuelless-bind {κ} :
      {B : Type κ} {m : Reader A} (f : A → Reader B)
      → Fuelless m
      → ((a : A) → Fuelless (f a))
      → Fuelless (m >>= f)
  unfolding ◌>>=◌
  Fuelless-bind {m = m} f h k = record { apply = λ b rest. go (m b) rest (h.apply b) }
    where
      go :
          (o : Outcome A) (rest : Bytes)
          → ((r : Bytes) → o ≢ err out_of_fuel r)
          → and_then o f ≢ err out_of_fuel rest
      go (ok a b') rest p = (k a).apply b' rest
      go (err x b') rest p = λ e. p b' (cc e)

n-Fuelless : (n : ℕ) → Fuelless (read_n n)
unfolding read_n
n-Fuelless n = record { apply = λ b rest. ground arith }

short-Fuelless : Fuelless read_short
unfolding read_short
short-Fuelless = Fuelless-bind _ (n-Fuelless size_short) λ v. Fuelless-pure _

value-Fuelless : (ln : ℕ) → Fuelless (read_value ln)
unfolding read_value
value-Fuelless ln = elim (Bool-cases (is_negative16 ln)) [
  | inl e ↦ rw e (Fuelless-pure [])
  | inr e ↦ rw e (n-Fuelless ln)
]

field-Fuelless : Fuelless Tlv.unmarshal
unfolding Tlv.unmarshal
field-Fuelless = Fuelless-bind _ short-Fuelless λ _.
    Fuelless-bind _ short-Fuelless λ ln. Fuelless-bind _ (value-Fuelless ln) λ _. Fuelless-pure _

stored-Fuelless : (f : Field) (m : Option Options) → Fuelless (stored (store f m))
unfolding stored store pure
stored-Fuelless f none = record { apply = λ b rest e. cc }
stored-Fuelless f (some m) = record { apply = λ b rest e. cc }

option_field-Fuelless : (m : Option Options) → Fuelless (option_field m)
unfolding option_field
option_field-Fuelless m = Fuelless-bind _ field-Fuelless λ f. stored-Fuelless f m

n_takes : (n : ℕ) (b : Bytes) {v rest : Bytes} → read_n n b ≡ ok v rest → length b ≡ length rest + n
unfolding read_n
n_takes n b e = ground (arith, length-drop n b)

-- The tag is two bytes.
short_takes :
    (b : Bytes) {v : ℕ} {rest : Bytes} → read_short b ≡ ok v rest → length b ≡ length rest + 2
unfolding read_short ◌>>=◌ pure
short_takes b e =
    let (v, b1, p1, e1) = and_then-eq-ok (read_n size_short b) _ e in
    omega (arith, n_takes size_short b p1, ap (λ (l : Bytes). length l) (ok-injective e1).1)

takes_some {ℓ} :
    {A : Type ℓ} (m : Reader A) (b : Bytes) {a : A} {rest : Bytes}
    → Consumes m
    → m b ≡ ok a rest
    → length rest ≤ length b
takes_some m b {a} {rest} h e =
    let (front, p) = h.apply b in
    omega (
      arith,
      length-append front (unread (m b)),
      ap (λ (l : Bytes). length l) p,
      ap (λ (o : Outcome _). length (unread o)) e,
    )

stored-Consumes : (f : Field) (m : Option Options) → Consumes (stored (store f m))
unfolding stored store
stored-Consumes f none = Consumes-err _
stored-Consumes f (some m) = Consumes-pure _

as_field : ℕ → Bytes → Field
as_field tag value = record { tag = tag; value = value }

-- What follows the tag of a field.
value-field-Consumes :
    (tag : ℕ) → Consumes (do ln ← read_short; value ← read_value ln; pure (as_field tag value))
value-field-Consumes tag =
    Consumes-bind _ short-Consumes λ _. Consumes-bind _ (value-Consumes _) λ _. Consumes-pure _

pub option_field_takes :
    (m m' : Option Options) (b rest : Bytes)
    → option_field m b ≡ ok m' rest
    → length rest + 2 ≤ length b
unfolding option_field Tlv.unmarshal ◌>>=◌ as_field
option_field_takes m m' b rest e =
    let (f, b1, p1, e1) = and_then-eq-ok (Tlv.unmarshal b) _ e in
    let (tag, b2, p2, e2) = and_then-eq-ok (read_short b) _ p1 in
    omega (
      arith,
      short_takes b p2,
      takes_some _ b2 (value-field-Consumes tag) e2,
      takes_some _ b1 (stored-Consumes f m) e1,
    )

option_loop-ne-out_of_fuel :
    (fuel : ℕ) (m : Option Options) (b rest : Bytes)
    → length b ≤ fuel
    → option_loop fuel m b ≢ err out_of_fuel rest
unfolding option_loop ◌>>=◌
option_loop-ne-out_of_fuel fuel m [] rest h = λ e. cc
option_loop-ne-out_of_fuel zero m (x ∷ b) rest h = absurd (omega arith)
option_loop-ne-out_of_fuel (suc fuel) m (x ∷ b) rest h =
    go (option_field m (x ∷ b)) refl (λ m' b' k. option_loop-ne-out_of_fuel fuel m' b' rest k)
  where
    go :
        (o : Outcome (Option Options))
        → option_field m (x ∷ b) ≡ o
        → ((m' : Option Options) (b' : Bytes)
            → length b' ≤ fuel
            → option_loop fuel m' b' ≢ err out_of_fuel rest)
        → and_then o (option_loop fuel) ≢ err out_of_fuel rest
    go (ok m' b') e ih = ih m' b' (omega (arith, option_field_takes m m' (x ∷ b) b' e))
    go (err y b') e ih = λ q. (option_field-Fuelless m).apply (x ∷ b) rest (e ∙ q)

-- On any bytes and any map the loop over the optional parameters ends before its fuel, the number
-- of the bytes, is used up.
pub unmarshal_optional_param-ne-out_of_fuel :
    (m : Option Options) (b rest : Bytes) → unmarshal_optional_param m b ≢ err out_of_fuel rest
unfolding unmarshal_optional_param
unmarshal_optional_param-ne-out_of_fuel m b rest =
    option_loop-ne-out_of_fuel (length b) m b rest (omega arith)
