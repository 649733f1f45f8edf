-- ===== src/Udh/RoundTrip.antt =====
-- UnmarshalBinary of pdu/UDH.go reads back what MarshalBinary wrote.
use gosmpp.Prelude.{
  ℕ, zero, suc, ◌+◌, ◌≤◌, ◌<◌, ◌≡◌, [], ◌∷◌, ◌++◌, append_assoc, length, length-append, take-append,
  drop-append, drop, arith, lt→ltb, inr,
}
use gosmpp.Outcome.{Bytes}
use gosmpp.Udh.{InfoElement, Udh, unmarshal_element, unmarshal_loop, unmarshal_binary}
use gosmpp.Udh.Size.{size, elements, length-elements}

unmarshal_element-append :
    (ie : InfoElement) (rest : Bytes)
    → unmarshal_element (ie.id ∷ length ie.value ∷ (ie.value ++ rest))
      ≡ inr (ie, 2 + length ie.value)
unfolding unmarshal_element
unmarshal_element-append ie rest =
    ground (arith, length-append ie.value rest, take-append ie.value rest)

-- `src[read:]` behind an element that was read.
pub drop_element :
    (id ie_len : ℕ) (value rest : Bytes)
    → drop (2 + length value) (id ∷ ie_len ∷ (value ++ rest)) ≡ rest
drop_element id ie_len value rest =
    let two_more : 2 + length value ≡ suc (suc (length value)) = omega arith in
    rw two_more (drop-append value rest)

unmarshal_loop_step :
    (fuel total read : ℕ) (src rest : Bytes) (ie : InfoElement) (r : ℕ) (u : Udh) (n : ℕ)
    → read < total
    → unmarshal_element src ≡ inr (ie, r)
    → drop r src ≡ rest
    → unmarshal_loop fuel total (read + r) rest ≡ inr (u, n)
    → unmarshal_loop (suc fuel) total read src ≡ inr (ie ∷ u, n)
unfolding unmarshal_loop
unmarshal_loop_step fuel total read src rest ie r u n h p q ih = rw (lt→ltb read total h, p, q, ih)

unmarshal_loop-elements :
    (fuel total read : ℕ) (u : Udh) (rest : Bytes)
    → size u ≤ fuel
    → read + size u ≡ total + 1
    → unmarshal_loop fuel total read (elements u ++ rest) ≡ inr (u, total + 1)
unmarshal_loop-elements zero total read [] rest h e = unfold unmarshal_loop in ground arith
unmarshal_loop-elements (suc fuel) total read [] rest h e = unfold unmarshal_loop in ground arith
unmarshal_loop-elements zero total read (ie ∷ u) rest h e = absurd (omega arith)
unmarshal_loop-elements (suc fuel) total read (ie ∷ u) rest h e =
    let after : Bytes = elements u ++ rest in
    rw (append_assoc ie.value (elements u) rest) (
      unmarshal_loop_step fuel total read _ after ie (2 + length ie.value) u (total + 1)
        (omega arith) (unmarshal_element-append ie after)
        (drop_element ie.id (length ie.value) ie.value after)
        (unmarshal_loop-elements fuel total (read + (2 + length ie.value)) u rest (omega arith)
          (omega arith)))

-- Every User Data Header with an element and at most 255 octets of elements is read back from its
-- length byte and its elements, whatever follows, with the number of its bytes.
pub unmarshal_binary-elements :
    (u : Udh) (rest : Bytes)
    → 0 < size u
    → size u ≤ 255
    → unmarshal_binary (size u ∷ (elements u ++ rest)) ≡ inr (u, size u + 1)
unfolding unmarshal_binary
unmarshal_binary-elements u rest pos h = ground (
  arith,
  length-append (elements u) rest,
  length-elements u,
  unmarshal_loop-elements (size u) (size u) 1 u rest,
)
