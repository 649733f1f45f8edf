-- ===== src/Globals/Sequence.antt =====
-- The sequence numbers that nextSequenceNumber of pdu/PDUHeader.go hands out.
use gosmpp.Prelude.{ℕ, ◌+◌, ◌%◌, ◌^◌, ◌≤◌, ◌<◌, ◌≡◌, arith}
use gosmpp.Globals.{next_sequence_number}

-- From any state of the counter the sequence number handed out is from 1 to 2^31 - 1, and the
-- counter stays an int32 pattern.
pub next_sequence_number_bounds :
    (s : ℕ)
    → (1 ≤ (next_sequence_number s).0)
      × ((next_sequence_number s).0 < 2 ^ 31)
      × ((next_sequence_number s).1 < 2 ^ 32)
unfolding next_sequence_number
next_sequence_number_bounds s = ground arith

-- If two sequence numbers handed out one after the other are the same, then the counter has just
-- passed a multiple of 2^31, and the number is 1.
pub next_sequence_number_repeats :
    (s : ℕ)
    → s < 2 ^ 32
    → (next_sequence_number s).0 ≡ (next_sequence_number (next_sequence_number s).1).0
    → ((s + 1) % 2 ^ 31 ≡ 0) × ((next_sequence_number s).0 ≡ 1)
unfolding next_sequence_number
next_sequence_number_repeats s h e = ground arith

-- Where the counter passes a multiple of 2^31, the number 1 is handed out twice, one after the
-- other.
pub next_sequence_number_twice_one :
    (s : ℕ)
    → (s + 1) % 2 ^ 31 ≡ 0
    → ((next_sequence_number s).0 ≡ 1) × ((next_sequence_number (next_sequence_number s).1).0 ≡ 1)
unfolding next_sequence_number
next_sequence_number_twice_one s h = ground arith
