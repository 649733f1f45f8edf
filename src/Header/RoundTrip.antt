-- ===== src/Header/RoundTrip.antt =====
-- Header.Marshal, Header.Unmarshal and ParseHeader of pdu/PDUHeader.go agree.
use gosmpp.Prelude.{ℕ, ◌^◌, ◌<◌, ◌≡◌, refl, ap, sym, ◌∙◌, [], ◌∷◌, arith, length, drop, drop-drop}
use gosmpp.Outcome.{
  Bytes, Decodes, Decodes-bind, Decodes-pure, ok, ok-injective, and_then-eq-ok, pure, ◌>>=◌,
}
use gosmpp.Buffer.{write_int, read_int, read_n, uint32}
use gosmpp.Buffer.RoundTrip.{int-Decodes}
use gosmpp.Buffer.Consumption.{Consumes, Consumes-bind, Consumes-pure, int-Consumes}
use gosmpp.Header.{Header, unmarshal, marshal, parse_header}

-- The four numbers are int32 patterns.
pub record IsWords (c : Header) : Type 0 where
  pub length_fits : c.command_length < 2 ^ 32
  pub id_fits : c.command_id < 2 ^ 32
  pub status_fits : c.command_status < 2 ^ 32
  pub sequence_fits : c.sequence_number < 2 ^ 32

-- A header of four int32 patterns is read back from the sixteen bytes that Marshal wrote.
pub header-Decodes : (c : Header) → IsWords c → Decodes unmarshal (marshal c) c
unfolding unmarshal marshal
header-Decodes c h = Decodes-bind _ (int-Decodes _ h.length_fits) (
    Decodes-bind _ (int-Decodes _ h.id_fits) (
      Decodes-bind _ (int-Decodes _ h.status_fits)
        (Decodes-bind _ (int-Decodes _ h.sequence_fits) (Decodes-pure _))))

pub header-Consumes : Consumes unmarshal
unfolding unmarshal
header-Consumes = Consumes-bind _ int-Consumes λ _.
    Consumes-bind _ int-Consumes
      λ _. Consumes-bind _ int-Consumes λ _. Consumes-bind _ int-Consumes λ _. Consumes-pure _

pub length-marshal : (c : Header) → length (marshal c) ≡ 16
unfolding marshal write_int
length-marshal c = refl

pub parse_header-marshal : (c : Header) → IsWords c → parse_header (marshal c) ≡ c
unfolding parse_header marshal write_int
parse_header-marshal c h = ground arith

read_int-eq-ok :
    (b : Bytes) {v : ℕ} {rest : Bytes} → read_int b ≡ ok v rest → (v ≡ uint32 b) × (rest ≡ drop 4 b)
unfolding read_int read_n pure ◌>>=◌
read_int-eq-ok [] e = ground arith
read_int-eq-ok (b0 ∷ []) e = ground arith
read_int-eq-ok (b0 ∷ b1 ∷ []) e = ground arith
read_int-eq-ok (b0 ∷ b1 ∷ b2 ∷ []) e = ground arith
read_int-eq-ok (b0 ∷ b1 ∷ b2 ∷ b3 ∷ b) e = ground arith

-- Whenever Header.Unmarshal succeeds it read the header that ParseHeader finds in the same bytes.
pub unmarshal-eq-parse_header :
    (b : Bytes) {c : Header} {rest : Bytes} → unmarshal b ≡ ok c rest → c ≡ parse_header b
unfolding unmarshal parse_header pure ◌>>=◌
unmarshal-eq-parse_header b e =
    let (n, b1, p1, e1) = and_then-eq-ok (read_int b) _ e in
    let (id, b2, p2, e2) = and_then-eq-ok (read_int b1) _ e1 in
    let (st, b3, p3, e3) = and_then-eq-ok (read_int b2) _ e2 in
    let (sq, b4, p4, e4) = and_then-eq-ok (read_int b3) _ e3 in
    let (v1, r1) = read_int-eq-ok b p1 in
    let (v2, r2) = read_int-eq-ok b1 p2 in
    let (v3, r3) = read_int-eq-ok b2 p3 in
    let (v4, r4) = read_int-eq-ok b3 p4 in
    let r2' : b2 ≡ drop 8 b = r2 ∙ ap (drop 4) r1 ∙ drop-drop 4 4 b in
    let r3' : b3 ≡ drop 12 b = r3 ∙ ap (drop 4) r2' ∙ drop-drop 8 4 b in
    sym (ok-injective e4).0 ∙ λ i. record {
      command_length = v1 i;
      command_id = (v2 ∙ ap uint32 r1) i;
      command_status = (v3 ∙ ap uint32 r2') i;
      sequence_number = (v4 ∙ ap uint32 r3') i;
    }
