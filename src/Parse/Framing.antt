-- ===== src/Parse/Framing.antt =====
-- Parse of pdu/PDU.go stays in step with the stream: whatever it answers about a PDU with a valid
-- length, it takes exactly that PDU's bytes.
use gosmpp.Prelude.{
  ℕ, ◌+◌, ◌-◌, ◌≤◌, ◌<◌, ◌≡◌, ◌≢◌, refl, ap, sym, ◌∙◌, [], ◌∷◌, ◌++◌, length, length-drop,
  length-take, take, drop, take-append-drop, take-append-take, drop-drop, if◌then◌else◌, arith,
  ◌==◌, true, false, Bool-cases, leb-cases, inl, inr, ◌⊎◌,
}
use gosmpp.Outcome.{Bytes, Error, Outcome, ok, err, ok-injective, eof, unexpected_eof, invalid_pdu}
use gosmpp.Buffer.Consumption.{unread}
use gosmpp.Globals.{Globals}
use gosmpp.Header.{Header, parse_header}
use gosmpp.Base.{aside}
use gosmpp.Packet.{Pdu, base_of}
use gosmpp.Wire.{unmarshal}
use gosmpp.Wire.Framing.{IsFrameOf, pdu-IsFrameOf}
use gosmpp.Factory.{create_pdu_from_cmd_id}
use gosmpp.Parse.{read_full, bad_length, unmarshal_created, parse_body, parse_header_bytes, parse}

pub read_full-eq-ok : (n : ℕ) (s : Bytes) → n ≤ length s → read_full n s ≡ ok (take n s) (drop n s)
unfolding read_full
read_full-eq-ok n s h = ground arith

-- The first sixteen bytes are the header, whatever follows.
pub parse_header-append :
    (b rest : Bytes) → 16 ≤ length b → parse_header (b ++ rest) ≡ parse_header b
unfolding parse_header
parse_header-append
      (a0 ∷ a1 ∷ a2 ∷ a3 ∷ b0 ∷ b1 ∷ b2 ∷ b3 ∷ c0 ∷ c1 ∷ c2 ∷ c3 ∷ d0 ∷ d1 ∷ d2 ∷ d3 ∷ b) rest h =
    refl
parse_header-append _ rest h = absurd (omega arith)

parse_header-take :
    (n : ℕ) (s : Bytes) → 16 ≤ n → n ≤ length s → parse_header (take n s) ≡ parse_header s
parse_header-take n s h k =
    sym (parse_header-append (take n s) (drop n s) (omega (arith, length-take n s k)))
    ∙ ap parse_header (take-append-drop n s)

-- The stream holds a whole PDU: the length in its header is valid, and that many bytes are there.
pub record HasFrame (s : Bytes) : Type 0 where
  pub header_there : 16 ≤ length s
  pub length_valid : bad_length (parse_header s).command_length ≡ false
  pub body_there : (parse_header s).command_length ≤ length s

pub bad_length_bounds : (n : ℕ) → bad_length n ≡ false → (16 ≤ n) × (n ≤ 65536)
bad_length_bounds n h = ground arith

pub parse-frame :
    (g : Globals) (s : Bytes)
    → HasFrame s
    → parse g s
      ≡ unmarshal_created
          (create_pdu_from_cmd_id g (parse_header s).command_id)
          (take (parse_header s).command_length s)
          (drop (parse_header s).command_length s)
unfolding parse parse_header_bytes parse_body
parse-frame g s h =
    let n = (parse_header s).command_length in
    let at_least : 16 ≤ n = (bad_length_bounds n h.length_valid).0 in
    let whole : 16 + (n - 16) ≡ n = omega arith in
    rw (
      read_full-eq-ok 16 s h.header_there,
      parse_header-take 16 s (omega arith) h.header_there,
      h.length_valid,
      read_full-eq-ok (n - 16) (drop 16 s) (omega (arith, length-drop 16 s, h.body_there)),
      take-append-take 16 (n - 16) s,
      drop-drop 16 (n - 16) s,
      whole,
    )

unmarshal_created-unread :
    (c : (Error ⊎ Pdu) × Globals) (b s : Bytes) → unread (unmarshal_created c b s).0 ≡ s
unfolding unmarshal_created aside
unmarshal_created-unread (inl e, g) b s = refl
unmarshal_created-unread (inr p, g) b s = go (unmarshal p b)
  where
    go : (o : Outcome Pdu) → unread (aside o s) ≡ s
    go (ok a r) = refl
    go (err e r) = refl

-- Of a stream that begins with a whole PDU of a valid command length, Parse takes exactly the
-- bytes of that PDU, whether it returns a PDU or an error.
pub parse_takes :
    (g : Globals) (s : Bytes)
    → HasFrame s
    → unread (parse g s).0 ≡ drop (parse_header s).command_length s
parse_takes g s h = rw (parse-frame g s h) (unmarshal_created-unread _ _ _)

-- io.ReadFull at the end of the stream: io.EOF if nothing at all was left.
abbrev pub end_error : ℕ → Error
end_error n = if n == 0 then eof else unexpected_eof

read_full-eq-err :
    (n : ℕ) (s : Bytes) → length s < n → read_full n s ≡ err (end_error (length s)) []
unfolding read_full
read_full-eq-err n s h = ground arith

pub parse_no_header :
    (g : Globals) (s : Bytes) → length s < 16 → parse g s ≡ (err (end_error (length s)) [], g)
unfolding parse parse_header_bytes
parse_no_header g s h = rw (read_full-eq-err 16 s h)

-- The command lengths that are no length of a PDU; the pattern of a negative one is from 2 ^ 31.
abbrev pub OutOfBounds : ℕ → Type 0
OutOfBounds n = (n < 16) ⊎ (65536 < n)

pub bad_length-OutOfBounds : (n : ℕ) → bad_length n ≡ true → OutOfBounds n
bad_length-OutOfBounds n bad = elim (leb-cases 16 n) [
  | inr (_, below) ↦ inl below
  | inl (_, there) ↦ elim (leb-cases n 65536) [
    | inr (_, above) ↦ inr above
    | inl (_, within) ↦ let fine : bad_length n ≡ false = ground arith in cc
  ]
]

OutOfBounds-bad_length : (n : ℕ) → OutOfBounds n → bad_length n ≡ true
OutOfBounds-bad_length n (inl below) = ground arith
OutOfBounds-bad_length n (inr above) = ground arith

-- On a stream with a header whose command length is below 16 or, as the unsigned number of its
-- pattern, above 65536, so also on a negative one, Parse gives the error of an invalid PDU, has
-- taken the header alone, and leaves the package variables as they were.
pub parse-bad_length :
    (g : Globals) (s : Bytes)
    → 16 ≤ length s
    → OutOfBounds (parse_header s).command_length
    → parse g s ≡ (err invalid_pdu (drop 16 s), g)
unfolding parse parse_header_bytes
parse-bad_length g s h bad =
    rw
      (
        read_full-eq-ok 16 s h,
        parse_header-take 16 s (omega arith) h,
        OutOfBounds-bad_length (parse_header s).command_length bad,
      )
      refl

-- On a stream that ends inside the body that a valid command length announces, Parse gives io.EOF
-- if there is no byte of the body and io.ErrUnexpectedEOF otherwise, and creates no PDU.
pub parse_cut_body :
    (g : Globals) (s : Bytes)
    → 16 ≤ length s
    → bad_length (parse_header s).command_length ≡ false
    → length s < (parse_header s).command_length
    → parse g s ≡ (err (end_error (length s - 16)) [], g)
unfolding parse parse_header_bytes parse_body
parse_cut_body g s h good cut =
    let n = (parse_header s).command_length in
    rw (
      read_full-eq-ok 16 s h,
      parse_header-take 16 s (omega arith) h,
      good,
      read_full-eq-err (n - 16) (drop 16 s) (omega (arith, length-drop 16 s)),
      length-drop 16 s,
    )

Refuses : Outcome Pdu → Type 0
Refuses o = (p : Pdu) (rest : Bytes) → o ≢ ok p rest

HasFrame-cases : (g : Globals) (s : Bytes) → HasFrame s ⊎ Refuses (parse g s).0
unfolding Refuses
HasFrame-cases g s = elim (leb-cases 16 (length s)) [
  | inr (_, short) ↦ inr (λ p rest e. cc (e, parse_no_header g s short))
  | inl (_, there) ↦ elim (Bool-cases (bad_length (parse_header s).command_length)) [
    | inl bad ↦ inr (λ p rest e. cc (e, parse-bad_length g s there (bad_length-OutOfBounds _ bad)))
    | inr good ↦ elim (leb-cases (parse_header s).command_length (length s)) [
      | inr (_, cut) ↦ inr (λ p rest e. cc (e, parse_cut_body g s there good cut))
      | inl (_, whole) ↦
          inl (record { header_there = there; length_valid = good; body_there = whole })
    ]
  ]
]

aside-eq-ok {ℓ} :
    {A : Type ℓ} (o : Outcome A) (s : Bytes) {a : A} {rest : Bytes}
    → aside o s ≡ ok a rest
    → (left : Bytes) × (o ≡ ok a left)
unfolding aside
aside-eq-ok (ok a' left) s e = (left, ap (λ x. ok x left) (ok-injective e).0)
aside-eq-ok (err x left) s e = cc

unmarshal_created-IsFrameOf :
    (c : (Error ⊎ Pdu) × Globals) (b s : Bytes) {p : Pdu} {rest : Bytes}
    → (unmarshal_created c b s).0 ≡ ok p rest
    → (left : Bytes) × IsFrameOf b (base_of p) left
unfolding unmarshal_created
unmarshal_created-IsFrameOf (inl e, g) b s q = cc
unmarshal_created-IsFrameOf (inr p, g) b s q =
    let (left, r) = aside-eq-ok (unmarshal p b) s q in (left, pdu-IsFrameOf p b r)

-- Whenever Parse returns a PDU: its header is the one at the front of the stream, its command
-- length is from 16 to 65536, and the unread rest of the stream begins exactly that many bytes
-- further on.
pub parse-ok :
    (g : Globals) (s : Bytes) {p : Pdu} {rest : Bytes}
    → (parse g s).0 ≡ ok p rest
    → ((base_of p).header ≡ parse_header s)
      × (16 ≤ (base_of p).header.command_length)
      × ((base_of p).header.command_length ≤ 65536)
      × (rest ≡ drop (base_of p).header.command_length s)
      × (length s ≡ (base_of p).header.command_length + length rest)
unfolding Refuses
parse-ok g s {p} {rest} e = elim (HasFrame-cases g s) [
  | inr refused ↦ absurd (refused p rest e)
  | inl f ↦ behind f
]
  where
    behind :
        HasFrame s
        → ((base_of p).header ≡ parse_header s)
          × (16 ≤ (base_of p).header.command_length)
          × ((base_of p).header.command_length ≤ 65536)
          × (rest ≡ drop (base_of p).header.command_length s)
          × (length s ≡ (base_of p).header.command_length + length rest)
    behind f =
        let n = (parse_header s).command_length in
        let bounds : (16 ≤ n) × (n ≤ 65536) = bad_length_bounds n f.length_valid in
        let left : rest ≡ drop n s = sym (ap unread e) ∙ parse_takes g s f in
        let framed =
          unmarshal_created-IsFrameOf (create_pdu_from_cmd_id g (parse_header s).command_id)
            (take n s) (drop n s) (rw (parse-frame g s f) at e) in
        let first : (base_of p).header ≡ parse_header s =
          framed.1.header_first ∙ parse_header-take n s bounds.0 f.body_there in
        let same : (base_of p).header.command_length ≡ n =
          ap (λ (h : Header). h.command_length) first in
        (
          first,
          omega arith,
          omega arith,
          left ∙ ap (λ k. drop k s) (sym same),
          omega (arith, ap (λ (l : Bytes). length l) left, length-drop n s, f.body_there),
        )
