-- ===== src/Gsm7/Validity.antt =====
-- ValidateGSM7Buffer and the transforms of data/7bit.go: which buffers decode.
use gosmpp.Prelude.{
  ℕ, ◌≡◌, ◌↔◌, refl, Bool, true, false, Bool-cases, inl, inr, List, [], ◌∷◌, ◌++◌, Option, none,
  some, ◌==◌,
}
use gosmpp.Gsm7.Tables.{lookup, reverse_lookup, reverse_escape}
use gosmpp.Gsm7.{
  escape_sequence, unless_known, validate_from, validate_gsm7_buffer, decode, decode_from, push,
}

Decodable : Option (List ℕ) → Type 0
Decodable o = (text : List ℕ) × (o ≡ some text)

push_valid :
    (o : Option ℕ) (x : ℕ) (xs invalid : List ℕ) (rest : Option (List ℕ))
    → ((invalid ≡ []) ↔ Decodable rest)
    → (unless_known o (x ∷ xs) ++ invalid ≡ []) ↔ Decodable (push o rest)
unfolding Decodable unless_known push
push_valid none x xs invalid rest h = ((λ e. cc), λ d. cc (d.1))
push_valid (some r) x xs invalid none h = ((λ e. cc ((h.0 e).1)), λ d. cc (d.1))
push_valid (some r) x xs invalid (some l) h = ((λ e. (r ∷ l, refl)), λ d. h.1 (l, refl))

validate_from_iff : (s : List ℕ) (b : Bool) → (validate_from s b ≡ []) ↔ Decodable (decode_from s b)
unfolding validate_from decode_from Decodable
validate_from_iff [] false = ((λ e. ([], refl)), λ d. refl)
validate_from_iff [] true = ((λ e. cc), λ d. cc (d.1))
validate_from_iff (x ∷ l) true =
    push_valid (lookup reverse_escape x) escape_sequence (x ∷ []) (validate_from l false)
      (decode_from l false) (validate_from_iff l false)
validate_from_iff (x ∷ l) false = elim (Bool-cases (x == escape_sequence)) [
  | inl e ↦ rw e (validate_from_iff l true)
  | inr e ↦ rw e (
      push_valid (lookup reverse_lookup x) x [] (validate_from l false) (decode_from l false)
        (validate_from_iff l false))
]

pub validate_gsm7_buffer_iff :
    (buffer : List ℕ)
    → (validate_gsm7_buffer buffer ≡ []) ↔ ((text : List ℕ) × (decode buffer ≡ some text))
unfolding validate_gsm7_buffer decode Decodable
validate_gsm7_buffer_iff buffer = validate_from_iff buffer false
