-- ===== src/Globals.antt =====
-- The package variables: `sequenceNumber` of pdu/PDUHeader.go, `ref` of pdu/ShortMessage.go and the
-- default TON and NPI of data/pkg.go. Functions that touch them take and return this record.
pub mod Sequence
use gosmpp.Prelude.{ℕ, ◌+◌, ◌%◌, ◌^◌, ◌==◌, if◌then◌else◌}

pub record Globals : Type 0 where
  pub sequence_number : ℕ
  pub ref : ℕ
  pub default_ton : ℕ
  pub default_npi : ℕ

pub set_default_ton : ℕ → Globals → Globals
set_default_ton t g = record g { default_ton = t }

pub set_default_npi : ℕ → Globals → Globals
set_default_npi n g = record g { default_npi = n }

-- `atomic.AddInt32(s, 1) & 0x7FFFFFFF`, with 1 for a result that is not positive.
abbrev positive31 : ℕ → ℕ
positive31 v = if v == 0 then 1 else v

unfoldable pub next_sequence_number : ℕ → ℕ × ℕ
next_sequence_number s = let s' = (s + 1) % 2 ^ 32 in (positive31 (s' % 2 ^ 31), s')

-- `atomic.AddUint32(&ref, 1)`
unfoldable pub get_ref_num : Globals → ℕ × Globals
get_ref_num g = let r = (g.ref + 1) % 2 ^ 32 in (r, record g { ref = r })
