-- ===== src/Buffer.antt =====
-- ByteBuffer of pdu/Buffer.go: reads from the front of a bytes.Buffer and writes to its end.
-- A byte is a number below 256, a string the list of its bytes. int16 and int32 are their bit
-- patterns, below 2 ^ 16 and 2 ^ 32.
pub mod RoundTrip
pub mod Consumption
pub mod Safety
use gosmpp.Prelude.{
  ℕ, ◌+◌, ◌*◌, ◌/◌, ◌%◌, ◌^◌, Bool, [], ◌∷◌, ◌++◌, leb, ◌==◌, if◌then◌else◌, length, take, drop,
}
use gosmpp.Outcome.{Bytes, Outcome, Reader, ok, err, eof, not_enough_bytes, pure, ◌>>=◌}

-- bytes.Buffer.ReadByte
unfoldable pub read_byte : Reader ℕ
read_byte [] = err eof []
read_byte (b ∷ bs) = ok b bs

unfoldable pub read_n : ℕ → Reader Bytes
read_n n b = if leb n (length b) then ok (take n b) (drop n b) else err not_enough_bytes b

-- The bytes of a big-endian number, as encoding/binary reads them.
abbrev pub uint16 : Bytes → ℕ
uint16 (b0 ∷ b1 ∷ bs) = b0 * 256 + b1
uint16 _ = 0

abbrev pub uint32 : Bytes → ℕ
uint32 (b0 ∷ b1 ∷ b2 ∷ b3 ∷ bs) = ((b0 * 256 + b1) * 256 + b2) * 256 + b3
uint32 _ = 0

abbrev pub size_short : ℕ
size_short = 2

abbrev pub size_int : ℕ
size_int = 4

unfoldable pub read_short : Reader ℕ
unfolding read_n pure ◌>>=◌
read_short = do v ← read_n size_short; pure (uint16 v)

unfoldable pub read_int : Reader ℕ
unfolding read_n pure ◌>>=◌
read_int = do v ← read_n size_int; pure (uint32 v)

unfoldable pub write_short : ℕ → Bytes
write_short v = (v / 256 % 256) ∷ (v % 256) ∷ []

unfoldable pub write_int : ℕ → Bytes
write_int v = (v / 256 / 256 / 256 % 256) ∷ (v / 256 / 256 % 256) ∷ (v / 256 % 256) ∷ (v % 256) ∷ []

unfoldable pub write_byte : ℕ → Bytes
write_byte b = b ∷ []

-- The bytes that WriteCString appends: data.ASCII encodes a string as its own bytes.
unfoldable pub write_c_string : Bytes → Bytes
write_c_string s = s ++ (0 ∷ [])

cons_string : ℕ → Outcome Bytes → Outcome Bytes
cons_string c (ok s b) = ok (c ∷ s) b
cons_string c (err e b) = err e b

-- ReadBytes(0) without the delimiter. It takes all that is left where there is no zero byte.
unfoldable pub read_c_string : Reader Bytes
unfolding cons_string
read_c_string [] = err eof []
read_c_string (c ∷ b) = let rest = read_c_string b in if c == 0 then ok [] b else cons_string c rest

-- The sign bit of an int16 and of an int32.
abbrev pub is_negative16 : ℕ → Bool
is_negative16 v = leb (2 ^ 15) v

abbrev pub is_negative32 : ℕ → Bool
is_negative32 v = leb (2 ^ 31) v
