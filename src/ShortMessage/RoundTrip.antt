-- ===== src/ShortMessage/RoundTrip.antt =====
-- ShortMessage.Unmarshal of pdu/ShortMessage.go reads back what ShortMessage.Marshal wrote, with and
-- without a User Data Header.
use gosmpp.Prelude.{
  ℕ, suc, ◌+◌, ◌%◌, ◌≤◌, ◌<◌, ◌≡◌, refl, ap, sym, lt→ltb, ◌∙◌, Bool, true, false, [], ◌∷◌, ◌++◌,
  append_assoc, append-nil, length, length-append, take, take-append, drop, drop-append, Option,
  some, arith, ltb,
}
use gosmpp.Outcome.{Bytes, Decodes, Decodes-bind, Decodes-pure, pure, writes}
use gosmpp.Buffer.{write_byte}
use gosmpp.Buffer.RoundTrip.{byte-Decodes, n-Decodes}
use gosmpp.Encoding.{Encoding, from_data_coding}
use gosmpp.Udh.{Udh, udhl, unmarshal_binary}
use gosmpp.Udh.Size.{size, elements, length-elements, udhl-eq-size, marshal_binary-eq-elements}
use native.Mathlib.Numerals.{add-one}
use gosmpp.Udh.RoundTrip.{unmarshal_binary-elements}
use gosmpp.ShortMessage.{
  ShortMessage, empty_message, marshal, unmarshal, finish_unmarshal, take_header, strip_header,
  read_coding, write_coding, coding_of, header_bytes, bytes_or_nil, write_length,
}

-- The message of a new PDU, with or without a data_coding byte.
abbrev pub blank : Bool → ShortMessage
blank w = record empty_message { without_data_coding = w }

abbrev pub wire_coding : Bool → Option Encoding → ℕ
wire_coding true enc = 0
wire_coding false enc = coding_of enc

-- What arrives: the data, its header, and the encoding that the data_coding byte names. The text is
-- not sent.
abbrev pub received : ShortMessage → ShortMessage
received c = record c {
  message = [];
  enc = from_data_coding (wire_coding c.without_data_coding c.enc);
}

-- The bytes that sm_length counts.
abbrev payload : ShortMessage → Bool → Bytes
payload c false = c.message_data
payload c true = size c.ud_header ∷ (elements c.ud_header ++ c.message_data)

-- The message fits one byte of length, and has a header exactly if the PDU says so.
abbrev pub Fits : ShortMessage → Bool → Type 0
Fits c false = (c.ud_header ≡ []) × (length c.message_data ≤ 255)
Fits c true = (0 < size c.ud_header) × (size c.ud_header + 1 + length c.message_data ≤ 255)

coding-Decodes :
    (w : Bool) (enc : Option Encoding)
    → Decodes (read_coding w) (write_coding w enc) (wire_coding w enc)
unfolding read_coding write_coding
coding-Decodes true enc = Decodes-pure 0
coding-Decodes false enc = byte-Decodes (coding_of enc)

header_bytes-elements :
    (u : Udh) → 0 < size u → size u ≤ 255 → header_bytes (udhl u) u ≡ some (size u ∷ elements u)
unfolding header_bytes bytes_or_nil
header_bytes-elements u pos h =
    rw (udhl-eq-size u pos h, add-one (size u), marshal_binary-eq-elements u pos h)

whole_data : (d : Bytes) → length d ≤ 255 → take (length d % 256) d ≡ d
whole_data d h =
    let fits : length d % 256 ≡ length d = omega arith in
    rw fits (rw append-nil at (take-append d []))

-- The length byte and the payload, as Marshal writes them.
payload_lem :
    (c : ShortMessage) (udhi : Bool)
    → Fits c udhi
    → write_length (header_bytes (udhl c.ud_header) c.ud_header) (length c.message_data % 256)
        ++ (take (length c.message_data % 256) c.message_data ++ [])
      ≡ writes (write_byte (length (payload c udhi)) ∷ payload c udhi ∷ [])
unfolding write_length write_byte
payload_lem c false (none_sent, short) =
    let fits : length c.message_data % 256 ≡ length c.message_data = omega arith in
    rw (none_sent, whole_data c.message_data short, fits) (unfold header_bytes udhl in refl)
payload_lem c true (pos, short) =
    let total : (length c.message_data % 256 + suc (length (elements c.ud_header))) % 256
        ≡ suc (length (elements c.ud_header ++ c.message_data)) =
      omega
        (arith, length-append (elements c.ud_header) c.message_data, length-elements c.ud_header) in
    rw (
      header_bytes-elements c.ud_header pos (omega arith),
      whole_data c.message_data (omega arith),
      append_assoc (elements c.ud_header) c.message_data [],
      total,
    )

strip_header-eq-pure :
    (c : ShortMessage) (f : ℕ)
    → f ≤ length c.message_data
    → strip_header c (some f) ≡ pure (record c { message_data = drop f c.message_data })
unfolding strip_header
strip_header-eq-pure c f h =
    let inside : ltb (length c.message_data) f ≡ false = ground arith in rw inside

drop_header : (u : Udh) (d : Bytes) → drop (size u + 1) (size u ∷ (elements u ++ d)) ≡ d
drop_header u d =
    let all : size u + 1 ≡ suc (length (elements u)) = omega (arith, length-elements u) in
    rw all (drop-append (elements u) d)

take_header-payload :
    (c : ShortMessage)
    → Fits c true
    → take_header
        (record c { ud_header = []; message_data = payload c true })
        (unmarshal_binary (payload c true))
      ≡ pure c
unfolding take_header
take_header-payload c (pos, short) =
    rw
      (
        unmarshal_binary-elements c.ud_header c.message_data pos (omega arith),
        udhl-eq-size c.ud_header pos (omega arith),
      )
      (strip_header-eq-pure (record c { message_data = payload c true }) (size c.ud_header + 1)
          (omega (
            arith,
            length-append (elements c.ud_header) c.message_data,
            length-elements c.ud_header,
          ))
        ∙ ap (λ d. pure (record c { message_data = d })) (drop_header c.ud_header c.message_data))

finish-payload :
    (c : ShortMessage) (udhi : Bool) (enc : Option Encoding)
    → Fits c udhi
    → finish_unmarshal
        (record (blank c.without_data_coding) {
          sm_default_msg_id = c.sm_default_msg_id;
          message_data = payload c udhi;
          enc = enc;
        })
        (length (payload c udhi))
        udhi
      ≡ pure (record c { message = []; enc = enc })
unfolding finish_unmarshal
finish-payload c false enc (none_sent, short) =
    ap (λ u. pure (record c { message = []; enc = enc; ud_header = u })) (sym none_sent)
finish-payload c true enc h =
    let positive : ltb 0 (length (payload c true)) ≡ true = lt→ltb _ _ (omega arith) in
    rw positive (take_header-payload (record c { message = []; enc = enc }) h)

-- A short message that fits one length byte, with a User Data Header exactly if the esm_class says
-- so, is unmarshalled from what Marshal wrote: the default message id, the header and the data,
-- and the encoding that the data_coding byte names.
pub message-Decodes :
    (c : ShortMessage) (udhi : Bool)
    → Fits c udhi
    → Decodes (unmarshal (blank c.without_data_coding) udhi) (marshal c) (received c)
unfolding unmarshal marshal
message-Decodes c udhi h = rw (payload_lem c udhi h) (
    Decodes-bind _ (coding-Decodes c.without_data_coding c.enc) (
      Decodes-bind _ (byte-Decodes c.sm_default_msg_id) (
        Decodes-bind _ (byte-Decodes (length (payload c udhi))) (
          Decodes-bind _ (n-Decodes (payload c udhi))
            (rw (finish-payload c udhi _ h) (Decodes-pure _))))))
