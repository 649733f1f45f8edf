-- ===== src/Tlv.antt =====
-- Field of pdu/TLV.go: an optional parameter as tag, length and data.
pub mod RoundTrip
use gosmpp.Prelude.{ℕ, ◌%◌, ◌^◌, [], ◌∷◌, ltb, if◌then◌else◌, length}
use gosmpp.Outcome.{Bytes, Reader, pure, ◌>>=◌, writes}
use gosmpp.Buffer.{read_short, write_short, read_n, is_negative16}

pub record Field : Type 0 where
  pub tag : ℕ
  pub value : Bytes

-- `ReadN(int(ln))`: ReadN reads nothing for a length that is not positive.
unfoldable pub read_value : ℕ → Reader Bytes
read_value ln = if is_negative16 ln then pure [] else read_n ln

unfoldable pub unmarshal : Reader Field
unmarshal = do
  tag ← read_short
  ln ← read_short
  value ← read_value ln
  pure (record { tag = tag; value = value })

-- A field with no data is not written.
unfoldable pub marshal : Field → Bytes
marshal t =
    if ltb 0 (length t.value)
    then writes (write_short t.tag ∷ write_short (length t.value % 2 ^ 16) ∷ t.value ∷ [])
    else []
