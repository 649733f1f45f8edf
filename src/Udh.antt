-- ===== src/Udh.antt =====
-- UDH and InfoElement of pdu/UDH.go: the User Data Header before a segment of a long message.
pub mod Size
pub mod RoundTrip
pub mod Safety
pub mod Concat
use gosmpp.Prelude.{
  ℕ, zero, suc, ◌+◌, ◌%◌, Bool, true, false, List, [], ◌∷◌, ◌++◌, ltb, ◌==◌, if◌then◌else◌, length,
  take, drop, Option, none, some, ◌⊎◌, inl, inr,
}
use gosmpp.Outcome.{
  Bytes, Error, udhl_underflow, udhl_zero, udh_underflow, info_element_underflow, udh_limit,
  out_of_fuel,
}

pub record InfoElement : Type 0 where
  pub id : ℕ
  pub value : Bytes

abbrev pub Udh : Type 0
Udh = List InfoElement

-- The loop of UDHL over the elements that are left; `none` is its result -1.
unfoldable pub udhl_loop : ℕ → Udh → Option ℕ
udhl_loop l [] = some (l + 1)
udhl_loop l (ie ∷ u) =
    let l' = l + (2 + length ie.value) in
    let rest = udhl_loop l' u in
    if ltb 255 (length ie.value) then none else if ltb 255 l' then none else rest

unfoldable pub udhl : Udh → Option ℕ
unfolding udhl_loop
udhl [] = some 0
udhl (ie ∷ u) = udhl_loop 0 (ie ∷ u)

-- The loop of MarshalBinary: the bytes of the elements, and the final value of `length`.
unfoldable pub marshal_loop : ℕ → Udh → Bytes × ℕ
marshal_loop length' [] = ([], length')
marshal_loop length' (ie ∷ u) =
    let total = length' + (2 + length ie.value) in
    let (bytes, final) = marshal_loop total u in
    if ltb 255 total
    then ([], length')
    else (ie.id ∷ (length ie.value % 256) ∷ (ie.value ++ bytes), final)

marshal_elements : Bytes × ℕ → Bytes
marshal_elements (bytes, final) = if ltb 0 final then (final % 256) ∷ bytes else []

unfoldable pub marshal_reserved : Option ℕ → Udh → Error ⊎ Bytes
unfolding marshal_elements marshal_loop
marshal_reserved none u = inl udh_limit
marshal_reserved (some zero) u = inr []
marshal_reserved (some (suc n)) u = inr (marshal_elements (marshal_loop 0 u))

unfoldable pub marshal_binary : Udh → Error ⊎ Bytes
unfolding marshal_reserved udhl
marshal_binary u = marshal_reserved (udhl u) u

-- InfoElement.UnmarshalBinary: the element and the number of bytes read.
unfoldable pub unmarshal_element : Bytes → Error ⊎ (InfoElement × ℕ)
unmarshal_element (id ∷ ie_len ∷ value) =
    if ltb (length value) ie_len
    then inl info_element_underflow
    else inr (record { id = id; value = take ie_len value }, 2 + ie_len)
unmarshal_element _ = inl info_element_underflow

prepend : InfoElement → Error ⊎ (Udh × ℕ) → Error ⊎ (Udh × ℕ)
prepend ie (inl e) = inl e
prepend ie (inr (ies, read)) = inr (ie ∷ ies, read)

-- `for read < udhl`, where `src` is what follows the bytes read so far.
unfoldable pub unmarshal_loop : ℕ → ℕ → ℕ → Bytes → Error ⊎ (Udh × ℕ)
unfolding unmarshal_element prepend
unmarshal_loop zero udhl' read src = if ltb read udhl' then inl out_of_fuel else inr ([], read)
unmarshal_loop (suc fuel) udhl' read src =
    let next : Error ⊎ (Udh × ℕ) = elim (unmarshal_element src) [
      | inl e ↦ inl e
      | inr (ie, r) ↦ prepend ie (unmarshal_loop fuel udhl' (read + r) (drop r src))
    ] in
    if ltb read udhl' then next else inr ([], read)

-- The new header and the number of bytes read. Each round reads two bytes at least.
unfoldable pub unmarshal_binary : Bytes → Error ⊎ (Udh × ℕ)
unfolding unmarshal_loop
unmarshal_binary [] = inl udhl_underflow
unmarshal_binary (udhl' ∷ src) =
    if udhl' == 0
    then inl udhl_zero
    else if ltb (length src) udhl'
    then inl udh_underflow
    else unmarshal_loop udhl' udhl' 1 src

unfoldable pub find_info_element : ℕ → Udh → Option InfoElement
find_info_element id [] = none
find_info_element id (ie ∷ u) = if ie.id == id then some ie else find_info_element id u

-- data.UDH_CONCAT_MSG_8_BIT_REF
abbrev pub udh_concat_msg_8_bit_ref : ℕ
udh_concat_msg_8_bit_ref = 0

pub record ConcatInfo : Type 0 where
  pub total_parts : ℕ
  pub part_num : ℕ
  pub mref : ℕ
  pub found : Bool

abbrev pub no_concat_info : ConcatInfo
no_concat_info = record { total_parts = 0; part_num = 0; mref = 0; found = false }

-- An element of another length than three counts as not found.
concat_parts : Bytes → ConcatInfo
concat_parts (a ∷ b ∷ c ∷ []) = record { total_parts = b; part_num = c; mref = a; found = true }
concat_parts _ = no_concat_info

concat_info : Option InfoElement → ConcatInfo
unfolding concat_parts
concat_info none = no_concat_info
concat_info (some ie) = concat_parts ie.value

unfoldable pub get_concat_info : Udh → ConcatInfo
unfolding find_info_element concat_info
get_concat_info u = concat_info (find_info_element udh_concat_msg_8_bit_ref u)

unfoldable pub new_ie_concat_message : ℕ → ℕ → ℕ → InfoElement
new_ie_concat_message total_parts part_num mref = record {
  id = udh_concat_msg_8_bit_ref;
  value = mref ∷ total_parts ∷ part_num ∷ [];
}
