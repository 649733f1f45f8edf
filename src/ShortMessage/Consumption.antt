-- ===== src/ShortMessage/Consumption.antt =====
-- ShortMessage.Unmarshal of pdu/ShortMessage.go moves the front of the buffer only forward.
use gosmpp.Prelude.{
  ℕ, Bool, true, false, ◌&&◌, ltb, length, Option, none, some, ◌⊎◌, inl, inr, Bool-cases,
}
use gosmpp.Outcome.{Error}
use gosmpp.Buffer.Consumption.{
  Consumes, Consumes-bind, Consumes-pure, Consumes-err, byte-Consumes, n-Consumes,
}
use gosmpp.Udh.{Udh, udhl, unmarshal_binary}
use gosmpp.ShortMessage.{
  ShortMessage, unmarshal, read_coding, finish_unmarshal, take_header, strip_header,
}

coding-Consumes : (w : Bool) → Consumes (read_coding w)
unfolding read_coding
coding-Consumes true = Consumes-pure 0
coding-Consumes false = byte-Consumes

strip_header-Consumes : (c : ShortMessage) (f : Option ℕ) → Consumes (strip_header c f)
unfolding strip_header
strip_header-Consumes c none = Consumes-err _
strip_header-Consumes c (some f) = elim (Bool-cases (ltb (length c.message_data) f)) [
  | inl e ↦ rw e (Consumes-err _)
  | inr e ↦ rw e (Consumes-pure _)
]

take_header-Consumes : (c : ShortMessage) (r : Error ⊎ (Udh × ℕ)) → Consumes (take_header c r)
unfolding take_header
take_header-Consumes c (inl e) = Consumes-err e
take_header-Consumes c (inr (u, n)) = strip_header-Consumes (record c { ud_header = u }) (udhl u)

finish-Consumes : (c : ShortMessage) (n : ℕ) (udhi : Bool) → Consumes (finish_unmarshal c n udhi)
unfolding finish_unmarshal
finish-Consumes c n udhi = elim (Bool-cases (udhi && ltb 0 n)) [
  | inl e ↦ rw e (take_header-Consumes c (unmarshal_binary c.message_data))
  | inr e ↦ rw e (Consumes-pure c)
]

pub message-Consumes : (c : ShortMessage) (udhi : Bool) → Consumes (unmarshal c udhi)
unfolding unmarshal
message-Consumes c udhi = Consumes-bind _ (coding-Consumes c.without_data_coding) λ _.
    Consumes-bind _ byte-Consumes λ _.
      Consumes-bind _ byte-Consumes
        λ n. Consumes-bind _ (n-Consumes n) λ _. finish-Consumes _ n udhi
