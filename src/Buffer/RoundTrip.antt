-- ===== src/Buffer/RoundTrip.antt =====
-- Each read of pdu/Buffer.go takes back what the write wrote.
use gosmpp.Prelude.{
  ℕ, ◌^◌, ◌<◌, ◌≡◌, ◌≢◌, refl, [], ◌∷◌, ◌++◌, All, arith, length, length-append, take-append,
  drop-append,
}
use gosmpp.Outcome.{Bytes, Decodes, ok}
use gosmpp.Buffer.{
  read_byte, write_byte, read_n, read_short, write_short, read_int, write_int, read_c_string,
  write_c_string,
}

-- No byte of the string is the terminator.
abbrev pub NoNul : Bytes → Type 0
NoNul = All (λ c. c ≢ 0)

pub byte-Decodes : (b : ℕ) → Decodes read_byte (write_byte b) b
unfolding read_byte write_byte
byte-Decodes b = record { apply = λ rest. refl }

pub read_n-append : (bs rest : Bytes) → read_n (length bs) (bs ++ rest) ≡ ok bs rest
unfolding read_n
read_n-append bs rest =
    ground (arith, length-append bs rest, take-append bs rest, drop-append bs rest)

pub n-Decodes : (bs : Bytes) → Decodes (read_n (length bs)) bs bs
n-Decodes bs = record { apply = read_n-append bs }

pub short-Decodes : (v : ℕ) → v < 2 ^ 16 → Decodes read_short (write_short v) v
unfolding read_short write_short
short-Decodes v h = record { apply = λ rest. ground arith }

pub int-Decodes : (v : ℕ) → v < 2 ^ 32 → Decodes read_int (write_int v) v
unfolding read_int write_int
int-Decodes v h = record { apply = λ rest. ground arith }

read_c_string-append :
    (s rest : Bytes) → NoNul s → read_c_string (write_c_string s ++ rest) ≡ ok s rest
unfolding read_c_string write_c_string
read_c_string-append [] rest h = refl
read_c_string-append (c ∷ s) rest h = ground (arith, read_c_string-append s rest h.1)

-- A string without a zero byte is read back by ReadCString from what WriteCString wrote.
pub c_string-Decodes : (s : Bytes) → NoNul s → Decodes read_c_string (write_c_string s) s
c_string-Decodes s h = record { apply = λ rest. read_c_string-append s rest h }
