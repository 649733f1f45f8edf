-- ===== src/ShortMessage/Split/Parts.antt =====
-- The messages that `split` of pdu/ShortMessage.go makes of a long text.
use gosmpp.Prelude.{
  ℕ, ◌+◌, ◌%◌, ◌≤◌, ◌<◌, ◌≡◌, refl, ap, arith, true, List, [], ◌∷◌, map, some, inr, length,
}
use gosmpp.Outcome.{Bytes}
use gosmpp.Globals.{Globals, get_ref_num}
use gosmpp.Udh.{get_concat_info}
use gosmpp.Udh.Concat.{get_concat_info-append}
use gosmpp.ShortMessage.{ShortMessage}
use gosmpp.ShortMessage.Split.{
  Codecs, Splitter, split, split_by, segmented, parts, encoding_or_default, sm_gsm_msg_len,
}

-- The messages from number `i` on are numbered in order as parts of `total` under one reference.
abbrev pub Numbered : ℕ → ℕ → ℕ → List ShortMessage → Type 0
Numbered total ref i [] = Unit
Numbered total ref i (m ∷ l) =
    (get_concat_info m.ud_header
      ≡ record { total_parts = total; part_num = i + 1; mref = ref; found = true })
    × Numbered total ref (i + 1) l

abbrev pub datas : List ShortMessage → List Bytes
datas = map (λ (m : ShortMessage). m.message_data)

module _ (codecs : Codecs) where
  parts-datas :
      (c : ShortMessage) (total ref i : ℕ) (segments : List Bytes)
      → datas (parts codecs c total ref i segments) ≡ segments
  unfolding parts
  parts-datas c total ref i [] = refl
  parts-datas c total ref i (seg ∷ segments) =
      ap (λ l. seg ∷ l) (parts-datas c total ref (i + 1) segments)

  parts-Numbered :
      (c : ShortMessage) (total ref i : ℕ) (segments : List Bytes)
      → total < 256
      → i + length segments ≤ total
      → Numbered total (ref % 256) i (parts codecs c total ref i segments)
  unfolding parts
  parts-Numbered c total ref i [] few room = tt
  parts-Numbered c total ref i (seg ∷ segments) few room =
      let whole : total % 256 ≡ total = omega arith in
      let part : (i + 1) % 256 ≡ i + 1 = omega arith in
      (
        rw (whole, part) (get_concat_info-append [] [] total (i + 1) (ref % 256) tt),
        parts-Numbered c total ref (i + 1) segments few (omega arith),
      )

  -- If the encoding of a message is a Splitter that wants its text split and gives fewer than 256
  -- segments, split gives a message for each segment with its octets, and GetConcatInfo finds in
  -- the header of each the number of the messages, its own number, counted from 1 in order, and
  -- one reference number, the low octet of the counter.
  pub split-Numbered :
      (g : Globals) (c : ShortMessage) (s : Splitter) (segments : List Bytes)
      → codecs.splitter (encoding_or_default codecs c.enc) ≡ some s
      → s.should_split c.message sm_gsm_msg_len ≡ true
      → s.encode_split c.message 134 ≡ inr segments
      → length segments < 256
      → let (ref, g') = get_ref_num g in
        (l : List ShortMessage) × (split codecs g c ≡ (inr l, g'))
        × (datas l ≡ segments)
        × Numbered (length segments) (ref % 256) 0 l
  unfolding split split_by segmented
  split-Numbered g c s segments splits long encoded few =
      let (ref, g') = get_ref_num g in
      (
        parts codecs c (length segments) ref 0 segments,
        rw (splits, long, encoded) refl,
        parts-datas c (length segments) ref 0 segments,
        parts-Numbered c (length segments) ref 0 segments few (omega arith),
      )
