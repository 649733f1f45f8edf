-- ===== src/Encoding.antt =====
-- Encoding of data/codings.go: the encodings with their data_coding values.
use gosmpp.Prelude.{ℕ, ◌≡◌, refl, ◌==◌, if◌then◌else◌, Option, none, some, ◌⊎◌}
use gosmpp.Outcome.{Bytes, Error}

-- Text conversion that a user supplies, as EncDec.
pub record EncDec : Type 0 where
  pub encode : Bytes → Error ⊎ Bytes
  pub decode : Bytes → Error ⊎ Bytes

-- `custom` is CustomEncoding; each other constructor is a package variable.
pub data Encoding : Type 0 where
  gsm7bit gsm7bit_packed ascii binary8bit1 latin1 binary8bit2 cyrillic hebrew ucs2 : Encoding
  custom : ℕ → EncDec → Encoding

abbrev pub gsm7bit_coding : ℕ
gsm7bit_coding = 0

unfoldable pub data_coding : Encoding → ℕ
data_coding gsm7bit = gsm7bit_coding
data_coding gsm7bit_packed = gsm7bit_coding
data_coding ascii = 1
data_coding binary8bit1 = 2
data_coding latin1 = 3
data_coding binary8bit2 = 4
data_coding cyrillic = 6
data_coding hebrew = 7
data_coding ucs2 = 8
data_coding (custom coding encdec) = coding

-- `none` is the nil interface that a missing key of codingMap gives.
unfoldable pub from_data_coding : ℕ → Option Encoding
from_data_coding code =
    if code == 0
    then some gsm7bit
    else if code == 1
    then some ascii
    else if code == 2
    then some binary8bit1
    else if code == 3
    then some latin1
    else if code == 4
    then some binary8bit2
    else if code == 6
    then some cyrillic
    else if code == 7
    then some hebrew
    else if code == 8
    then some ucs2
    else none

-- What a receiver makes of the data_coding that an encoding sends.
abbrev pub received_encoding : Encoding → Option Encoding
received_encoding gsm7bit_packed = some gsm7bit
received_encoding (custom coding encdec) = from_data_coding coding
received_encoding e = some e

-- FromDataCoding of the data_coding of an encoding is that encoding; the packed GSM alphabet comes
-- back as the unpacked one, and a custom encoding as the one its number names.
pub from_data_coding-data_coding :
    (e : Encoding) → from_data_coding (data_coding e) ≡ received_encoding e
unfolding from_data_coding data_coding
from_data_coding-data_coding gsm7bit = refl
from_data_coding-data_coding _ = refl
