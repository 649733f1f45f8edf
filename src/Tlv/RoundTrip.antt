-- ===== src/Tlv/RoundTrip.antt =====
-- Field.Marshal and Field.Unmarshal of pdu/TLV.go.
use gosmpp.Prelude.{
  ℕ, ◌+◌, ◌%◌, ◌^◌, ◌<◌, ◌≡◌, [], arith, length, lt→ltb, false, append-nil, Bool-cases, inl, inr,
}
use gosmpp.Outcome.{Bytes, Decodes, Decodes-bind, Decodes-pure}
use gosmpp.Buffer.{is_negative16, write_short}
use gosmpp.Buffer.RoundTrip.{short-Decodes, n-Decodes}
use gosmpp.Buffer.Consumption.{Consumes, Consumes-bind, Consumes-pure, short-Consumes, n-Consumes}
use gosmpp.Tlv.{Field, unmarshal, marshal, read_value}

-- The length of the data is positive as an int16.
pub record IsTlv (t : Field) : Type 0 where
  pub tag_fits : t.tag < 2 ^ 16
  pub not_empty : 0 < length t.value
  pub not_long : length t.value < 2 ^ 15

value-Decodes : (d : Bytes) → length d < 2 ^ 15 → Decodes (read_value (length d % 2 ^ 16)) d d
unfolding read_value
value-Decodes d h =
    let same : length d % 2 ^ 16 ≡ length d = omega arith in
    let positive : is_negative16 (length d) ≡ false = ground arith in
    rw (same, positive) (n-Decodes d)

-- A field with a 16-bit tag and 1 to 32767 bytes of data is read back from what Marshal wrote.
pub field-Decodes : (t : Field) → IsTlv t → Decodes unmarshal (marshal t) t
unfolding unmarshal marshal
field-Decodes t h = rw (lt→ltb 0 (length t.value) h.not_empty) (
    Decodes-bind _ (short-Decodes _ h.tag_fits) (
      Decodes-bind _ (short-Decodes (length t.value % 2 ^ 16) (omega arith))
        (Decodes-bind _ (value-Decodes t.value h.not_long) (Decodes-pure _))))

pub value-Consumes : (ln : ℕ) → Consumes (read_value ln)
unfolding read_value
value-Consumes ln = elim (Bool-cases (is_negative16 ln)) [
  | inl e ↦ rw e (Consumes-pure [])
  | inr e ↦ rw e (n-Consumes ln)
]

pub field-Consumes : Consumes unmarshal
unfolding unmarshal
field-Consumes = Consumes-bind _ short-Consumes λ _.
    Consumes-bind _ short-Consumes λ ln. Consumes-bind _ (value-Consumes ln) λ _. Consumes-pure _

-- A written field takes five bytes at least.
pub length-marshal : (t : Field) → IsTlv t → length (marshal t) ≡ 4 + length t.value
unfolding marshal write_short
length-marshal t h = rw (lt→ltb 0 (length t.value) h.not_empty) (rw append-nil (omega arith))
