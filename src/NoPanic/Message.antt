-- ===== src/NoPanic/Message.antt =====
-- ShortMessage.Unmarshal of pdu/ShortMessage.go: its slice expression is in range.
use gosmpp.Prelude.{
  ℕ, ◌+◌, ◌<◌, ◌≤◌, ◌≡◌, refl, Bool, true, false, ◌&&◌, ltb, length, some, ◌⊎◌, inl, inr,
  Bool-cases, arith, [], ◌∷◌,
}
use gosmpp.Outcome.{Bytes, Error}
use gosmpp.Buffer.Safety.{
  Safe, Safe-pure, Safe-err, Safe-bind, Safe-bind_reads, byte-Safe, n-Safe, byte-Reads, n-Reads,
}
use gosmpp.Udh.{Udh, udhl, unmarshal_binary}
use gosmpp.Udh.Size.{size, udhl-eq-size}
use gosmpp.Udh.Safety.{unmarshal_binary_takes, ReturnedSum, unmarshal_binary-ReturnedSum}
use gosmpp.ShortMessage.{
  ShortMessage, unmarshal, read_coding, finish_unmarshal, take_header, strip_header,
}

coding-Safe : (w : Bool) → Safe (read_coding w)
unfolding read_coding
coding-Safe true = Safe-pure 0
coding-Safe false = byte-Safe

strip_header-Safe : (c : ShortMessage) (f : ℕ) → Safe (strip_header c (some f))
unfolding strip_header
strip_header-Safe c f = elim (Bool-cases (ltb (length c.message_data) f)) [
  | inl e ↦ rw e (Safe-err _ refl)
  | inr e ↦ rw e (Safe-pure _)
]

-- UDHL of a header that is not too large is not -1.
small_header-Safe : (c : ShortMessage) (u : Udh) → size u ≤ 255 → Safe (strip_header c (udhl u))
small_header-Safe c [] h = unfold udhl in strip_header-Safe c 0
small_header-Safe c (ie ∷ u) h =
    rw (udhl-eq-size (ie ∷ u) (omega arith) h) (strip_header-Safe c (size (ie ∷ u) + 1))

take_header-Safe :
    (c : ShortMessage) (d : Bytes) → length d ≤ 255 → Safe (take_header c (unmarshal_binary d))
unfolding take_header
take_header-Safe c d h = go (unmarshal_binary d) refl (unmarshal_binary-ReturnedSum d)
  where
    go : (r : Error ⊎ (Udh × ℕ)) → unmarshal_binary d ≡ r → ReturnedSum r → Safe (take_header c r)
    go (inl e) p ret = Safe-err e ret
    go (inr (u, n)) p ret =
        small_header-Safe (record c { ud_header = u }) u
          (omega (arith, unmarshal_binary_takes d u n p))

finish-Safe :
    (c : ShortMessage) (n : ℕ) (udhi : Bool)
    → length c.message_data ≤ 255
    → Safe (finish_unmarshal c n udhi)
unfolding finish_unmarshal
finish-Safe c n udhi h = elim (Bool-cases (udhi && ltb 0 n)) [
  | inl e ↦ rw e (take_header-Safe c c.message_data h)
  | inr e ↦ rw e (Safe-pure c)
]

-- ShortMessage.Unmarshal into any message, with or without the indicator of a User Data Header,
-- gives a message or an error that is returned on any bytes, and leaves bytes: the slice behind
-- the header is never out of range.
pub message-Safe : (c : ShortMessage) (udhi : Bool) → Safe (unmarshal c udhi)
unfolding unmarshal
message-Safe c udhi = Safe-bind _ (coding-Safe c.without_data_coding) λ _.
    Safe-bind _ byte-Safe λ _.
      Safe-bind_reads (λ n. n < 256) _ byte-Reads byte-Safe
        λ n small.
          Safe-bind_reads (λ l. length l ≡ n) _ (n-Reads n) (n-Safe n)
            λ d e. finish-Safe _ n udhi (omega arith)
