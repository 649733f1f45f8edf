-- ===== src/Splitting.antt =====
-- Splitting a text for concatenated messages: gsm7bit, gsm7bitPacked and ucs2 of data/codings.go, and
-- FindEncoding of data/utils.go. The encoder,
-- which golang.org/x/text runs, is a parameter.
pub mod Segments
pub mod Limits
use gosmpp.Prelude.{
  ℕ, zero, suc, ◌+◌, ◌-◌, ◌*◌, ◌/◌, ◌%◌, ◌^◌, Bool, true, false, not, ◌&&◌, List, [], ◌∷◌, ◌++◌,
  Option, none, some, ◌==◌, ltb, if◌then◌else◌, length, take, drop,
}
use gosmpp.Outcome.{Bytes}
use gosmpp.Encoding.{Encoding, gsm7bit, ucs2}
use gosmpp.Gsm7.{is_escape_char, get_escape_chars, utf8_length, packed_size}

-- The ShouldSplit of gsm7bit, which counts the bytes of the string.
unfoldable pub should_split : Bool → List ℕ → ℕ → Bool
should_split packed text octet_limit =
    if packed
    then ltb octet_limit (packed_size (utf8_length text))
    else ltb octet_limit (utf8_length text)

-- The ShouldSplit of ucs2.
unfoldable pub should_split_ucs2 : List ℕ → ℕ → Bool
should_split_ucs2 runes octet_limit = ltb octet_limit (length runes * 2)

unfoldable pub is_ascii : Bytes → Bool
is_ascii [] = true
is_ascii (b ∷ s) = not (ltb 127 b) && is_ascii s

-- FindEncoding
unfoldable pub find_encoding : Bytes → Encoding
unfolding is_ascii
find_encoding s = if is_ascii s then gsm7bit else ucs2

-- GetSeptetCount
unfoldable pub get_septet_count : List ℕ → ℕ
get_septet_count runes =
    let esc_chars_len = length (get_escape_chars runes) in
    esc_chars_len * 2 + (length runes - esc_chars_len)

-- The ShouldSplit of gsm7bitPacked.
unfoldable pub should_split_packed : List ℕ → ℕ → Bool
should_split_packed runes octet_limit =
    let esc_chars_len = length (get_escape_chars runes) in
    let reg_chars_len = length runes - esc_chars_len in
    ltb octet_limit ((reg_chars_len * 7 + esc_chars_len * 2 * 7 + 7) / 8)

abbrev pub limit_or_default : ℕ → ℕ
limit_or_default octet_limit = if ltb octet_limit 64 then 134 else octet_limit

unfoldable pub septets_for : ℕ → ℕ
septets_for r = if is_escape_char r then 2 else 1

-- One round of the loop: the rune is passed if there is room.
unfoldable pub passed : Bool → ℕ × ℕ → ℕ → ℕ × ℕ
passed true (k, n) n_septet = (suc k, n)
passed false rest n_septet = (0, n_septet)

-- The loop of determineTo over at most `m` runes: how many it passes, and their septets.
unfoldable pub scan : ℕ → ℕ → ℕ → List ℕ → ℕ × ℕ
unfolding passed
scan lim n_septet zero l = (0, n_septet)
scan lim n_septet (suc m) [] = (0, n_septet)
scan lim n_septet (suc m) (r ∷ l) =
    passed (ltb n_septet lim) (scan lim (n_septet + septets_for r) m l) n_septet

-- `IsEscapeChar(runeSlice[to-1])`
unfoldable pub ends_in_escape : ℕ → List ℕ → Bool
ends_in_escape zero l = false
ends_in_escape (suc k) [] = false
ends_in_escape (suc zero) (r ∷ l) = is_escape_char r
ends_in_escape (suc (suc k)) (r ∷ l) = ends_in_escape (suc k) l

-- determineTo, of the runes that are left: how many go into the next segment.
unfoldable pub step_back : ℕ → ℕ × ℕ → List ℕ → ℕ
unfolding ends_in_escape
step_back lim (k, n) l = if ends_in_escape k l && ltb lim n then k - 1 else k

unfoldable pub determine_to : ℕ → List ℕ → ℕ
unfolding scan step_back
determine_to lim l = step_back lim (scan lim 0 lim l) l

shift_from : ℕ → List ℕ → List ℕ
shift_from before [] = []
shift_from before (b ∷ l) = (b * 2 % 256 + before / 128) ∷ shift_from b l

last_octet : List ℕ → ℕ
last_octet [] = 0
last_octet (b ∷ []) = b
last_octet (b ∷ c ∷ l) = last_octet (c ∷ l)

-- shiftBitsLeftOne
unfoldable pub shift_bits_left_one : List ℕ → Bool → List ℕ
unfolding shift_from last_octet
shift_bits_left_one input include_lsb =
    shift_from 0 input ++ (if include_lsb then (last_octet input / 128 % 2 + 26) ∷ [] else [])

-- The runes of the segments, on fuel: gsm7bit counts runes, and gsm7bitPacked asks determineTo.
unfoldable pub segments : ℕ → ℕ → List ℕ → List (List ℕ)
segments zero lim l = []
segments (suc n) lim [] = []
segments (suc n) lim (r ∷ l) = take lim (r ∷ l) ∷ segments n lim (drop lim (r ∷ l))

unfoldable pub packed_segments : ℕ → ℕ → List ℕ → List (List ℕ)
unfolding determine_to
packed_segments zero lim l = []
packed_segments (suc n) lim [] = []
packed_segments (suc n) lim (r ∷ l) =
    let k = determine_to lim (r ∷ l) in take k (r ∷ l) ∷ packed_segments n lim (drop k (r ∷ l))

unfoldable pub append_segment : Option (List ℕ) → Option (List (List ℕ)) → Option (List (List ℕ))
append_segment (some seg) (some all) = some (seg ∷ all)
append_segment (some seg) none = none
append_segment none all = none

module _ (encoder : List ℕ → Option (List ℕ)) where
  unfoldable pub encode_all : List (List ℕ) → Option (List (List ℕ))
  unfolding append_segment
  encode_all [] = some []
  encode_all (seg ∷ l) = append_segment (encoder seg) (encode_all l)

  -- The EncodeSplit of gsm7bit.
  unfoldable pub encode_split : List ℕ → ℕ → Option (List (List ℕ))
  unfolding encode_all segments
  encode_split text octet_limit =
      encode_all (segments (length text) (limit_or_default octet_limit) text)

  -- The EncodeSplit of ucs2, which counts two octets for each rune.
  unfoldable pub encode_split_ucs2 : List ℕ → ℕ → Option (List (List ℕ))
  unfolding encode_all segments
  encode_split_ucs2 text octet_limit =
      encode_all (segments (length text) (limit_or_default octet_limit / 2) text)

  unfoldable pub shifted : ℕ → List ℕ → Option (List ℕ) → Option (List ℕ)
  unfolding shift_bits_left_one
  shifted lim runes none = none
  shifted lim runes (some seg) =
      let n_septet = get_septet_count runes in
      some (shift_bits_left_one seg (not (n_septet == lim) && (n_septet % 8 == 0)))

  unfoldable pub encode_packed_segment : ℕ → List ℕ → Option (List ℕ)
  unfolding shifted
  encode_packed_segment lim runes = shifted lim runes (encoder runes)

  unfoldable pub encode_packed_all : ℕ → List (List ℕ) → Option (List (List ℕ))
  unfolding append_segment encode_packed_segment
  encode_packed_all lim [] = some []
  encode_packed_all lim (seg ∷ l) =
      append_segment (encode_packed_segment lim seg) (encode_packed_all lim l)

  -- The EncodeSplit of gsm7bitPacked.
  unfoldable pub encode_split_packed : List ℕ → ℕ → Option (List (List ℕ))
  unfolding encode_packed_all packed_segments
  encode_split_packed text octet_limit =
      let lim = limit_or_default octet_limit * 8 % 2 ^ 64 / 7 in
      encode_packed_all lim (packed_segments (length text) lim text)
