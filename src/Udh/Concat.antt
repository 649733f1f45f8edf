-- ===== src/Udh/Concat.antt =====
-- Concatenated messages in pdu/UDH.go: GetConcatInfo finds what NewIEConcatMessage put in.
use gosmpp.Prelude.{ℕ, ◌≡◌, ◌≢◌, refl, [], ◌∷◌, ◌++◌, All, arith, true, some}
use gosmpp.Udh.{
  InfoElement, Udh, find_info_element, udh_concat_msg_8_bit_ref, get_concat_info, concat_info,
  concat_parts, new_ie_concat_message,
}

-- No element has the identifier of an 8-bit concatenation reference.
abbrev pub NoConcat : Udh → Type 0
NoConcat = All (λ (ie : InfoElement). ie.id ≢ udh_concat_msg_8_bit_ref)

find-append :
    (u v : Udh) (ie : InfoElement)
    → NoConcat u
    → ie.id ≡ udh_concat_msg_8_bit_ref
    → find_info_element udh_concat_msg_8_bit_ref (u ++ (ie ∷ v)) ≡ some ie
unfolding find_info_element
find-append [] v ie h e = ground arith
find-append (i ∷ u) v ie h e = ground (arith, find-append u v ie h.1 e)

-- The element that NewIEConcatMessage makes, if it is the first with the identifier of an 8-bit
-- concatenation reference, gives GetConcatInfo back its parts, part number and reference, wherever
-- it stands in the header.
pub get_concat_info-append :
    (u v : Udh) (total_parts part_num mref : ℕ)
    → NoConcat u
    → get_concat_info (u ++ (new_ie_concat_message total_parts part_num mref ∷ v))
      ≡ record { total_parts = total_parts; part_num = part_num; mref = mref; found = true }
unfolding get_concat_info concat_info concat_parts new_ie_concat_message
get_concat_info-append u v total_parts part_num mref h =
    rw (find-append u v (new_ie_concat_message total_parts part_num mref) h refl) refl
