-- ===== src/NoPanic/Frame.antt =====
-- base.unmarshal of pdu/PDU.go with a map for the optional parameters.
use gosmpp.Prelude.{
  ℕ, zero, suc, ◌+◌, ◌-◌, ◌≤◌, ◌≡◌, refl, sym, ◌||◌, [], ◌∷◌, length, ltb, ◌==◌, Bool-cases, inl,
  inr, Option, some, arith, true, false, ◌⊎◌,
}
use gosmpp.Outcome.{
  Bytes, Outcome, Reader, ok, err, ok-injective, and_then, and_then-eq-ok, pure, ◌>>=◌,
}
use gosmpp.Buffer.{is_negative32}
use gosmpp.Buffer.Consumption.{unread}
use gosmpp.Buffer.Safety.{
  IsBytes, Returned, Safe, Safe-pure, Safe-err, Safe-bind, Safe-bind_reads, n-Safe, n-IsBytes,
}
use gosmpp.Header.{Header}
use gosmpp.Tlv
use gosmpp.Base.{
  Base, Options, check_length, read_options, finish, unmarshal_from, unmarshal, aside, store,
  stored, option_field, option_loop, unmarshal_optional_param,
}
use gosmpp.Base.Fuel.{option_field_takes}
use gosmpp.NoPanic.Fields.{header-Safe, option_field-Safe}

-- A round with a map leaves a map.
option_field-some :
    (m : Options) (m' : Option Options) (b rest : Bytes)
    → option_field (some m) b ≡ ok m' rest
    → (l : Options) × (m' ≡ some l)
unfolding option_field stored store pure ◌>>=◌
option_field-some m m' b rest e =
    let (f, b1, p1, e1) = and_then-eq-ok (Tlv.unmarshal b) _ e in (_, sym (ok-injective e1).0)

option_loop-Returned :
    (fuel : ℕ) (m : Options) (b : Bytes)
    → IsBytes b
    → length b ≤ fuel
    → Returned (option_loop fuel (some m) b)
unfolding option_loop ◌>>=◌
option_loop-Returned fuel m [] h k = tt
option_loop-Returned zero m (x ∷ b) h k = absurd (omega arith)
option_loop-Returned (suc fuel) m (x ∷ b) h k =
    go (option_field (some m) (x ∷ b)) refl ((option_field-Safe m).returned (x ∷ b) h)
      ((option_field-Safe m).left (x ∷ b) h) λ l b' i n. option_loop-Returned fuel l b' i n
  where
    go :
        (o : Outcome (Option Options))
        → option_field (some m) (x ∷ b) ≡ o
        → Returned o
        → IsBytes (unread o)
        → ((l : Options) (b' : Bytes)
            → IsBytes b'
            → length b' ≤ fuel
            → Returned (option_loop fuel (some l) b'))
        → Returned (and_then o (option_loop fuel))
    go (ok m' b') e r i ih =
        let (l, same) = option_field-some m m' (x ∷ b) b' e in
        rw same (ih l b' i (omega (arith, option_field_takes (some m) m' (x ∷ b) b' e)))
    go (err y b') e r i ih = r

aside-Safe {ℓ} : {A : Type ℓ} (o : Outcome A) → Returned o → Safe (aside o)
unfolding aside pure
aside-Safe (ok a b) r = Safe-pure a
aside-Safe (err e b) r = Safe-err e r

check_length-Safe {ℓ} : {A : Type ℓ} (full n : ℕ) (a : A) → Safe (check_length full n a)
unfolding check_length
check_length-Safe full n a = record {
  returned =
      λ b h. elim (Bool-cases (length b + n == full)) [ inl e ↦ rw e tt | inr e ↦ rw e refl ];
  left = λ b h. elim (Bool-cases (length b + n == full)) [ inl e ↦ rw e h | inr e ↦ rw e h ];
}

module _ {ℓ} {A : Type ℓ} where
  read_options-Safe :
      (n full : ℕ) (c : Base) (m : Options) (a : A)
      → c.optional_parameters ≡ some m
      → Safe (read_options n full c a)
  unfolding read_options unmarshal_optional_param
  read_options-Safe n full c m a e = Safe-bind_reads IsBytes _ (n-IsBytes n) (n-Safe n) λ opt h.
      Safe-bind _ (aside-Safe _ (rw e (option_loop-Returned (length opt) m opt h (omega arith))))
        λ l. check_length-Safe full _ _

  finish-Safe :
      (full : ℕ) (c : Base) (m : Options) (a : A)
      → c.optional_parameters ≡ some m
      → Safe (finish full c a)
  unfolding finish
  finish-Safe full c m a e = record {
    returned = λ b h. elim (cases b) [
      | inl p ↦ rw p refl
      | inr p ↦ elim (Bool-cases (ltb full (n + length b))) [
        | inl q ↦ rw (p, q) ((read_options-Safe (n + length b - full) full c m a e).returned b h)
        | inr q ↦ rw (p, q) ((check_length-Safe full n (c, a)).returned b h)
      ]
    ];
    left = λ b h. elim (cases b) [
      | inl p ↦ rw p h
      | inr p ↦ elim (Bool-cases (ltb full (n + length b))) [
        | inl q ↦ rw (p, q) ((read_options-Safe (n + length b - full) full c m a e).left b h)
        | inr q ↦ rw (p, q) ((check_length-Safe full n (c, a)).left b h)
      ]
    ];
  }
    where
      n : ℕ
      n = c.header.command_length

      cases :
          (b : Bytes)
          → ((is_negative32 c.header.command_length
                || ltb (c.header.command_length + length b) full)
              ≡ true)
            ⊎ ((is_negative32 c.header.command_length
                  || ltb (c.header.command_length + length b) full)
                ≡ false)
      cases b = Bool-cases _

  unmarshal_from-Safe :
      (full : ℕ) (c : Base) (m : Options) (body : Header → Reader A)
      → c.optional_parameters ≡ some m
      → ((h : Header) → Safe (body h))
      → Safe (unmarshal_from full c body)
  unfolding unmarshal_from
  unmarshal_from-Safe full c m body e k =
      Safe-bind _ header-Safe λ h. Safe-bind _ (k h) λ a. finish-Safe full _ m a e

  pub frame-Safe :
      (c : Base) (m : Options) (body : Header → Reader A)
      → c.optional_parameters ≡ some m
      → ((h : Header) → Safe (body h))
      → Safe (unmarshal c body)
  unfolding unmarshal
  frame-Safe c m body e k = record {
    returned = λ b. (unmarshal_from-Safe (length b) c m body e k).returned b;
    left = λ b. (unmarshal_from-Safe (length b) c m body e k).left b;
  }
