-- ===== src/Base/RoundTrip.antt =====
-- base.unmarshal of pdu/PDU.go reads back the frame that base.marshal put round a body.
use gosmpp.Prelude.{
  ℕ, ◌+◌, ◌-◌, ◌^◌, ◌≤◌, ◌<◌, ◌≡◌, refl, ap, ◌∙◌, true, false, ◌||◌, [], ◌∷◌, ◌++◌, append_assoc,
  length, length-append, Option, none, some, arith, ltb, lt→ltb,
}
use gosmpp.Outcome.{Bytes, Outcome, Reader, ok, Decodes, ◌>>=◌}
use gosmpp.Buffer.{is_negative32}
use gosmpp.Buffer.RoundTrip.{read_n-append}
use gosmpp.Header
use gosmpp.Header.{Header}
use gosmpp.Header.RoundTrip.{IsWords, header-Decodes, length-marshal as length-header}
use gosmpp.Tlv
use gosmpp.Tlv.RoundTrip.{length-marshal}
use gosmpp.Base.{
  Base, Options, check_length, read_options, finish, unmarshal_from, unmarshal,
  unmarshal_optional_param, marshal_options, marshal_entries, marshal, aside,
}
use gosmpp.Base.Options.{IsOptionsOpt, emptied, unmarshal_optional_param-entries}

-- The base that marshal returns: its command length is that of the bytes.
abbrev pub framed : Base → Bytes → Base
framed c body = (marshal c body).0

abbrev pub wire : Base → Bytes → Bytes
wire c body = (marshal c body).1

-- The base can be sent: int32 fields, transmissible parameters, and a length that fits an int32.
pub record IsFrame (c : Base) (body : Bytes) : Type 0 where
  pub id_fits : c.header.command_id < 2 ^ 32
  pub status_fits : c.header.command_status < 2 ^ 32
  pub sequence_fits : c.header.sequence_number < 2 ^ 32
  pub options_fit : IsOptionsOpt c.optional_parameters
  pub length_fits : 16 + length body + length (marshal_options c.optional_parameters) < 2 ^ 31

check_length-eq-ok {ℓ} :
    {A : Type ℓ} (full n : ℕ) (r : A) (b : Bytes)
    → length b + n ≡ full
    → check_length full n r b ≡ ok r b
unfolding check_length
check_length-eq-ok full n r b h = ground arith

module _ {ℓ} {A : Type ℓ} where
  -- No parameters were sent: the length agrees behind the body.
  finish-exact :
      (full : ℕ) (c : Base) (a : A) (b : Bytes)
      → c.header.command_length < 2 ^ 31
      → c.header.command_length + length b ≡ full
      → finish full c a b ≡ ok (c, a) b
  unfolding finish check_length
  finish-exact full c a b h e = ground arith

  read_options-append :
      (full : ℕ) (c : Base) (a : A) (opt rest : Bytes) (m : Option Options)
      → c.header.command_length + length rest ≡ full
      → unmarshal_optional_param c.optional_parameters opt ≡ ok m []
      → read_options (length opt) full c a (opt ++ rest)
        ≡ ok (record c { optional_parameters = m }, a) rest
  unfolding read_options aside ◌>>=◌
  read_options-append full c a opt rest m e p =
      rw (read_n-append opt rest, p)
        (check_length-eq-ok full c.header.command_length (record c { optional_parameters = m }, a)
          rest (omega arith))

  finish-options :
      (full : ℕ) (c : Base) (a : A) (opt rest : Bytes) (m : Option Options)
      → 0 < length opt
      → c.header.command_length < 2 ^ 31
      → c.header.command_length + length rest ≡ full
      → unmarshal_optional_param c.optional_parameters opt ≡ ok m []
      → finish full c a (opt ++ rest) ≡ ok (record c { optional_parameters = m }, a) rest
  unfolding finish
  finish-options full c a opt rest m pos h e p =
      let n = c.header.command_length in
      let total : length (opt ++ rest) ≡ length opt + length rest = length-append opt rest in
      let within : (is_negative32 n || ltb (n + length (opt ++ rest)) full) ≡ false =
        ground arith in
      let left : ltb full (n + length (opt ++ rest)) ≡ true = lt→ltb _ _ (omega arith) in
      let count : n + length (opt ++ rest) - full ≡ length opt = omega arith in
      rw (within, left, count) (read_options-append full c a opt rest m e p)

  -- The frame behind the body: with no parameters, with an empty map, and with some.
  finish-marshal_options :
      (full : ℕ) (c : Base) (a : A) (rest : Bytes) (m : Option Options)
      → IsOptionsOpt m
      → c.optional_parameters ≡ emptied m
      → c.header.command_length < 2 ^ 31
      → c.header.command_length + length rest ≡ full
      → finish full c a (marshal_options m ++ rest)
        ≡ ok (record c { optional_parameters = m }, a) rest
  unfolding marshal_options marshal_entries
  finish-marshal_options full c a rest none w p h e =
      finish-exact full c a rest h e ∙ ap (λ o. ok (record c { optional_parameters = o }, a) rest) p
  finish-marshal_options full c a rest (some []) w p h e =
      finish-exact full c a rest h e ∙ ap (λ o. ok (record c { optional_parameters = o }, a) rest) p
  finish-marshal_options full c a rest (some ((k, f) ∷ m)) w p h e =
      finish-options full c a (marshal_entries ((k, f) ∷ m)) rest (some ((k, f) ∷ m))
        (omega (arith, length-append (Tlv.marshal f) (marshal_entries m), length-marshal f w.1)) h e
        (rw p (unmarshal_optional_param-entries ((k, f) ∷ m) w))

pub framed-length :
    (c : Base) (body : Bytes)
    → IsFrame c body
    → (framed c body).header.command_length
      ≡ 16 + length body + length (marshal_options c.optional_parameters)
unfolding marshal
framed-length c body h =
    omega (arith, h.length_fits, length-append body (marshal_options c.optional_parameters))

pub framed-IsWords : (c : Base) (body : Bytes) → IsFrame c body → IsWords (framed c body).header
unfolding marshal
framed-IsWords c body h = record {
  length_fits = omega arith;
  id_fits = h.id_fits;
  status_fits = h.status_fits;
  sequence_fits = h.sequence_fits;
}

framed_lem :
    (c c0 : Base) (body : Bytes)
    → record c0 { header = (framed c body).header; optional_parameters = c.optional_parameters }
      ≡ framed c body
unfolding marshal
framed_lem c c0 body = refl

pub wire_lem :
    (c : Base) (body : Bytes)
    → wire c body
      ≡ Header.marshal (framed c body).header ++ (body ++ marshal_options c.optional_parameters)
unfolding marshal
wire_lem c body = refl

-- There is a header at least.
pub wire_min : (c : Base) (body : Bytes) → 16 ≤ length (wire c body)
wire_min c body =
    let head = Header.marshal (framed c body).header in
    rw (wire_lem c body) (
      omega (
        arith,
        length-append head (body ++ marshal_options c.optional_parameters),
        length-header (framed c body).header,
      ))

pub framed_id : (c : Base) (body : Bytes) → (framed c body).header.command_id ≡ c.header.command_id
unfolding marshal
framed_id c body = refl

-- Where the int32 fields and the optional parameters fit and the whole is below 2^31 bytes,
-- base.marshal writes exactly as many bytes as the command length it stores.
pub length-wire :
    (c : Base) (body : Bytes)
    → IsFrame c body
    → length (wire c body) ≡ (framed c body).header.command_length
length-wire c body h =
    let opt = marshal_options c.optional_parameters in
    rw (wire_lem c body) (
      omega (
        arith,
        framed-length c body h,
        length-append (Header.marshal (framed c body).header) (body ++ opt),
        length-append body opt,
        length-header (framed c body).header,
      ))

module _ {ℓ} {A : Type ℓ} where
  pub unmarshal_from-append :
      (full : ℕ) (c0 : Base) (body : Header → Reader A) (header : Header) (bytes tail : Bytes)
      (a : A) (o : Outcome (Base × A))
      → IsWords header
      → body header (bytes ++ tail) ≡ ok a tail
      → finish full (record c0 { header = header }) a tail ≡ o
      → unmarshal_from full c0 body (Header.marshal header ++ (bytes ++ tail)) ≡ o
  unfolding unmarshal_from ◌>>=◌
  unmarshal_from-append full c0 body header bytes tail a o w d f =
      rw ((header-Decodes header w).apply (bytes ++ tail), d) f

  -- If a bodyReader reads a value off the bytes of a body, then base.unmarshal with it reads that
  -- value and the base that base.marshal returned off the bytes that base.marshal wrote round that
  -- body, with the optional parameters, where the int32 fields and the parameters fit and the
  -- receiver starts with an empty map (or none if none was sent).
  pub frame-Decodes :
      (c c0 : Base) (bytes : Bytes) (body : Header → Reader A) (a : A)
      → IsFrame c bytes
      → c0.optional_parameters ≡ emptied c.optional_parameters
      → Decodes (body (framed c bytes).header) bytes a
      → Decodes (unmarshal c0 body) (wire c bytes) (framed c bytes, a)
  unfolding unmarshal
  frame-Decodes c c0 bytes body a h fresh d = record {
    apply = λ rest.
        let opt = marshal_options c.optional_parameters in
        let full = length (wire c bytes ++ rest) in
        let head = Header.marshal (framed c bytes).header in
        let split : wire c bytes ++ rest ≡ head ++ (bytes ++ (opt ++ rest)) =
          rw (wire_lem c bytes) (
            append_assoc head (bytes ++ opt) rest
            ∙ ap (λ l. head ++ l) (append_assoc bytes opt rest)) in
        let total : length (wire c bytes ++ rest) ≡ length (wire c bytes) + length rest =
          length-append (wire c bytes) rest in
        ap (λ b. unmarshal_from full c0 body b) split
        ∙ unmarshal_from-append full c0 body (framed c bytes).header bytes (opt ++ rest) a _
            (framed-IsWords c bytes h) (d.apply (opt ++ rest))
            (finish-marshal_options full (record c0 { header = (framed c bytes).header }) a rest
                c.optional_parameters h.options_fit fresh
                (omega (arith, framed-length c bytes h, h.length_fits))
                (omega (arith, length-wire c bytes h))
              ∙ ap (λ x. ok (x, a) rest) (framed_lem c c0 bytes));
  }
