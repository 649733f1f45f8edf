-- ===== src/Base/Framing.antt =====
-- How much of the buffer base.unmarshal of pdu/PDU.go takes.
use gosmpp.Prelude.{
  ℕ, ◌+◌, ◌-◌, ◌≡◌, refl, ◌||◌, [], length, arith, ltb, ◌==◌, inl, inr, Bool-cases, sym, ap, ◌∙◌,
}
use gosmpp.Outcome.{Bytes, Outcome, Reader, ok, err, ok-injective, pure, ◌>>=◌, and_then-eq-ok}
use gosmpp.Buffer.{read_n, is_negative32}
use gosmpp.Buffer.Consumption.{Consumes, Consumes-bind, n-Consumes}
use mathlib.Core.Path.{subst, subst₂}
use gosmpp.Header
use gosmpp.Header.{Header, parse_header}
use gosmpp.Header.RoundTrip.{header-Consumes, unmarshal-eq-parse_header}
use gosmpp.Base.{
  Base, check_length, read_options, finish, unmarshal_from, unmarshal, aside,
  unmarshal_optional_param,
}

aside-Consumes {ℓ} : {A : Type ℓ} (o : Outcome A) → Consumes (aside o)
unfolding aside
aside-Consumes (ok a b') = record { apply = λ b. ([], refl) }
aside-Consumes (err e b') = record { apply = λ b. ([], refl) }

check_length-Consumes {ℓ} : {A : Type ℓ} (full n : ℕ) (r : A) → Consumes (check_length full n r)
unfolding check_length
check_length-Consumes full n r = record {
  apply = λ b. elim (Bool-cases (length b + n == full)) [
    | inl e ↦ rw e ([], refl)
    | inr e ↦ rw e ([], refl)
  ];
}

module _ {ℓ} {A : Type ℓ} where
  read_options-Consumes : (n full : ℕ) (c : Base) (a : A) → Consumes (read_options n full c a)
  unfolding read_options
  read_options-Consumes n full c a =
      Consumes-bind _ (n-Consumes n)
        λ opt. Consumes-bind _ (aside-Consumes _) λ m. check_length-Consumes full _ _

  finish-Consumes : (full : ℕ) (c : Base) (a : A) → Consumes (finish full c a)
  unfolding finish
  finish-Consumes full c a = record {
    apply = λ b.
        let n = c.header.command_length in
        elim (Bool-cases (is_negative32 n || ltb (n + length b) full)) [
          | inl e ↦ rw e ([], refl)
          | inr e ↦ elim (Bool-cases (ltb full (n + length b))) [
            | inl e' ↦ rw (e, e') ((read_options-Consumes (n + length b - full) full c a).apply b)
            | inr e' ↦ rw (e, e') ((check_length-Consumes full n (c, a)).apply b)
          ]
        ];
  }

  pub unmarshal_from-Consumes :
      (full : ℕ) (c : Base) (body : Header → Reader A)
      → ((h : Header) → Consumes (body h))
      → Consumes (unmarshal_from full c body)
  unfolding unmarshal_from
  unmarshal_from-Consumes full c body k =
      Consumes-bind _ header-Consumes λ h. Consumes-bind _ (k h) λ a. finish-Consumes full _ a

  pub unmarshal-Consumes :
      (c : Base) (body : Header → Reader A)
      → ((h : Header) → Consumes (body h))
      → Consumes (unmarshal c body)
  unfolding unmarshal
  unmarshal-Consumes c body k = record {
    apply = λ b. (unmarshal_from-Consumes (length b) c body k).apply b;
  }

check_length-eq-ok {ℓ} :
    {A : Type ℓ} (full n : ℕ) (r : A) (b : Bytes) {r' : A} {rest : Bytes}
    → check_length full n r b ≡ ok r' rest
    → (r ≡ r') × (length rest + n ≡ full)
unfolding check_length
check_length-eq-ok full n r b e = ground arith

module _ {ℓ} {A : Type ℓ} where
  -- The length of the frame that was read is the command length of the header that was read.
  abbrev Exact : ℕ → Base × A → Bytes → Type 0
  Exact full r rest = full ≡ r.0.header.command_length + length rest

  check_length-Exact :
      (full : ℕ) (c : Base) (a : A) (b : Bytes) {r : Base × A} {rest : Bytes}
      → check_length full c.header.command_length (c, a) b ≡ ok r rest
      → Exact full r rest
  check_length-Exact full c a b {r} {rest} e =
      let (same, total) = check_length-eq-ok full c.header.command_length (c, a) b e in
      subst (λ (r : Base × A). Exact full r rest) same (omega arith)

  read_options-Exact :
      (n full : ℕ) (c : Base) (a : A) (b : Bytes) {r : Base × A} {rest : Bytes}
      → read_options n full c a b ≡ ok r rest
      → Exact full r rest
  unfolding read_options ◌>>=◌
  read_options-Exact n full c a b e =
      let (opt, b1, p1, e1) = and_then-eq-ok (read_n n b) _ e in
      let (m, b2, p2, e2) =
        and_then-eq-ok (aside (unmarshal_optional_param c.optional_parameters opt) b1) _ e1 in
      check_length-Exact full (record c { optional_parameters = m }) a b2 e2

  finish-Exact :
      (full : ℕ) (c : Base) (a : A) (b : Bytes) {r : Base × A} {rest : Bytes}
      → finish full c a b ≡ ok r rest
      → Exact full r rest
  unfolding finish
  finish-Exact full c a b e =
      let n = c.header.command_length in
      elim (Bool-cases (is_negative32 n || ltb (n + length b) full)) [
        | inl t ↦ cc (rw t at e)
        | inr t ↦ elim (Bool-cases (ltb full (n + length b))) [
          | inl t' ↦ read_options-Exact (n + length b - full) full c a b (rw (t, t') at e)
          | inr t' ↦ check_length-Exact full c a b (rw (t, t') at e)
        ]
      ]

  -- For any bodyReader: if base.unmarshal succeeds, the buffer held the command length in bytes
  -- and the bytes left over.
  pub unmarshal-Exact :
      (c : Base) (body : Header → Reader A) (b : Bytes) {r : Base × A} {rest : Bytes}
      → unmarshal c body b ≡ ok r rest
      → length b ≡ r.0.header.command_length + length rest
  unfolding unmarshal unmarshal_from ◌>>=◌
  unmarshal-Exact c body b e =
      let (h, b1, p1, e1) = and_then-eq-ok (Header.unmarshal b) _ e in
      let (a, b2, p2, e2) = and_then-eq-ok (body h b1) _ e1 in
      finish-Exact (length b) (record c { header = h }) a b2 e2

-- The same for a reader that only wraps what was read, keeping its base.
pub unmarshal_with-Exact {ℓ κ} :
    {A : Type ℓ} {B : Type κ} (c : Base) (body : Header → Reader A) (f : Base × A → B)
    (base : B → Base)
    → ((r : Base × A) → base (f r) ≡ r.0)
    → (b : Bytes) {p : B} {rest : Bytes} → (unmarshal c body >>= λ r. pure (f r)) b ≡ ok p rest
    → length b ≡ (base p).header.command_length + length rest
unfolding pure ◌>>=◌
unmarshal_with-Exact {B = B} c body f base keep b {p} {rest} e =
    let (r, b', e1, e2) = and_then-eq-ok (unmarshal c body b) (λ r. pure (f r)) e in
    let (same, left) = ok-injective e2 in
    subst₂ (λ (q : B) (l : Bytes). length b ≡ (base q).header.command_length + length l) same left
      (rw (keep r) (unmarshal-Exact c body b e1))

module _ {ℓ} {A : Type ℓ} where
  check_length-keeps :
      (full n : ℕ) (c : Base) (a : A) (b : Bytes) {r : Base × A} {rest : Bytes}
      → check_length full n (c, a) b ≡ ok r rest
      → c.header ≡ r.0.header
  check_length-keeps full n c a b e =
      ap (λ (r : Base × A). r.0.header) (check_length-eq-ok full n (c, a) b e).0

  finish_keeps :
      (full : ℕ) (c : Base) (a : A) (b : Bytes) {r : Base × A} {rest : Bytes}
      → finish full c a b ≡ ok r rest
      → c.header ≡ r.0.header
  unfolding finish read_options ◌>>=◌
  finish_keeps full c a b e =
      let n = c.header.command_length in
      elim (Bool-cases (is_negative32 n || ltb (n + length b) full)) [
        | inl t ↦ cc (rw t at e)
        | inr t ↦ elim (Bool-cases (ltb full (n + length b))) [
          | inl t' ↦
              let (opt, b1, p1, e1) =
                and_then-eq-ok (read_n (n + length b - full) b) _ (rw (t, t') at e) in
              let (m, b2, p2, e2) =
                and_then-eq-ok (aside (unmarshal_optional_param c.optional_parameters opt) b1) _
                  e1 in
              check_length-keeps full n (record c { optional_parameters = m }) a b2 e2
          | inr t' ↦ check_length-keeps full n c a b (rw (t, t') at e)
        ]
      ]

  -- The base of a PDU that was read has the header that ParseHeader finds.
  pub unmarshal-header :
      (c : Base) (body : Header → Reader A) (b : Bytes) {r : Base × A} {rest : Bytes}
      → unmarshal c body b ≡ ok r rest
      → r.0.header ≡ parse_header b
  unfolding unmarshal unmarshal_from ◌>>=◌
  unmarshal-header c body b e =
      let (h, b1, p1, e1) = and_then-eq-ok (Header.unmarshal b) _ e in
      let (a, b2, p2, e2) = and_then-eq-ok (body h b1) _ e1 in
      sym (finish_keeps (length b) (record c { header = h }) a b2 e2)
      ∙ unmarshal-eq-parse_header b p1

pub unmarshal_with-header {ℓ κ} :
    {A : Type ℓ} {B : Type κ} (c : Base) (body : Header → Reader A) (f : Base × A → B)
    (base : B → Base)
    → ((r : Base × A) → base (f r) ≡ r.0)
    → (b : Bytes) {p : B} {rest : Bytes} → (unmarshal c body >>= λ r. pure (f r)) b ≡ ok p rest
    → (base p).header ≡ parse_header b
unfolding pure ◌>>=◌
unmarshal_with-header {B = B} c body f base keep b {p} e =
    let (r, b', e1, e2) = and_then-eq-ok (unmarshal c body b) (λ r. pure (f r)) e in
    subst (λ (q : B). (base q).header ≡ parse_header b) (ok-injective e2).0
      (rw (keep r) (unmarshal-header c body b e1))
