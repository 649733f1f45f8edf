-- ===== src/Buffer/Safety.antt =====
-- The reads of pdu/Buffer.go neither panic nor run out of fuel: what they give on bytes is a value or
-- an error that Go returns.
use gosmpp.Prelude.{
  ℕ, ◌<◌, ◌≡◌, refl, Bool, true, false, [], ◌∷◌, ◌++◌, All, length, leb, Bool-cases, inl, inr, ◌==◌,
  arith, length-take, take, zero, suc,
}
use mathlib.Core.Path.{subst}
use gosmpp.Outcome.{
  Bytes, Error, Outcome, Reader, ok, err, ok-injective, and_then, pure, ◌>>=◌, nil_map_write,
  slice_out_of_range, nil_interface, out_of_fuel,
}
use gosmpp.Buffer.{
  read_byte, read_n, read_short, read_int, read_c_string, cons_string, size_short, size_int,
}
use gosmpp.Buffer.Consumption.{
  Consumes, EndsIn, unread, n-Consumes, byte-Consumes, c_string-Consumes,
}

abbrev pub IsBytes : Bytes → Type 0
IsBytes = All (λ c. c < 256)

-- The error is a Go value that a function returns.
abbrev pub is_returned : Error → Bool
is_returned nil_map_write = false
is_returned slice_out_of_range = false
is_returned nil_interface = false
is_returned out_of_fuel = false
is_returned _ = true

abbrev pub Returned {ℓ} : {A : Type ℓ} → Outcome A → Type 0
Returned (ok a b) = Unit
Returned (err e b) = is_returned e ≡ true

pub IsBytes-back : (front rest : Bytes) → IsBytes (front ++ rest) → IsBytes rest
IsBytes-back [] rest h = h
IsBytes-back (c ∷ front) rest h = IsBytes-back front rest h.1

pub EndsIn-IsBytes : (b rest : Bytes) → EndsIn b rest → IsBytes b → IsBytes rest
EndsIn-IsBytes b rest (front, p) h = IsBytes-back front rest (rw p at h)

-- On bytes, `m` gives a value or an error that is returned, and leaves bytes.
pub record Safe {ℓ} {A : Type ℓ} (m : Reader A) : Type 0 where
  pub returned : (b : Bytes) → IsBytes b → Returned (m b)
  pub left : (b : Bytes) → IsBytes b → IsBytes (unread (m b))

module _ {ℓ} {A : Type ℓ} where
  pub Consumes-Safe :
      {m : Reader A} → Consumes m → ((b : Bytes) → IsBytes b → Returned (m b)) → Safe m
  Consumes-Safe {m} c h = record {
    returned = h;
    left = λ b p. EndsIn-IsBytes b (unread (m b)) (c.apply b) p;
  }

  pub Safe-pure : (a : A) → Safe (pure a)
  unfolding pure
  Safe-pure a = record { returned = λ b h. tt; left = λ b h. h }

  pub Safe-err : (e : Error) → is_returned e ≡ true → Safe {A = A} (err e)
  Safe-err e p = record { returned = λ b h. p; left = λ b h. h }

  -- Every value that `m` reads off bytes has the property `Q`.
  abbrev pub Reads {κ} : Reader A → (A → Type κ) → Type (ℓ ⊔ κ)
  Reads m Q = (b : Bytes) (a : A) (rest : Bytes) → IsBytes b → m b ≡ ok a rest → Q a

  -- The continuation may use what is known of the value read.
  pub Safe-bind_reads {κ μ} :
      {B : Type κ} {m : Reader A} (Q : A → Type μ) (f : A → Reader B)
      → Reads m Q
      → Safe m
      → ((a : A) → Q a → Safe (f a))
      → Safe (m >>= f)
  unfolding ◌>>=◌
  Safe-bind_reads {m = m} Q f q h k = record {
    returned = λ b p. go b p (m b) refl (h.returned b p) (h.left b p);
    left = λ b p. rest b p (m b) refl (h.left b p);
  }
    where
      go :
          (b : Bytes)
          → IsBytes b
          → (o : Outcome A) → m b ≡ o
          → Returned o
          → IsBytes (unread o)
          → Returned (and_then o f)
      go b p (ok a b') e r l = (k a (q b a b' p e)).returned b' l
      go b p (err x b') e r l = r

      rest :
          (b : Bytes)
          → IsBytes b
          → (o : Outcome A) → m b ≡ o
          → IsBytes (unread o)
          → IsBytes (unread (and_then o f))
      rest b p (ok a b') e l = (k a (q b a b' p e)).left b' l
      rest b p (err x b') e l = l

  pub Safe-bind {κ} :
      {B : Type κ} {m : Reader A} (f : A → Reader B)
      → Safe m
      → ((a : A) → Safe (f a))
      → Safe (m >>= f)
  Safe-bind f h k = Safe-bind_reads {κ, 0} (λ _. Unit) f (λ b a r p e. tt) h λ a _. k a

pub byte-Safe : Safe read_byte
unfolding read_byte
byte-Safe = Consumes-Safe byte-Consumes (elim [ [] ↦ λ h. refl | x ∷ b ↦ λ h. tt ])

pub n-Safe : (n : ℕ) → Safe (read_n n)
unfolding read_n
n-Safe n =
    Consumes-Safe (n-Consumes n)
      λ b h. elim (Bool-cases (leb n (length b))) [ inl e ↦ rw e tt | inr e ↦ rw e refl ]

pub short-Safe : Safe read_short
unfolding read_short
short-Safe = Safe-bind _ (n-Safe size_short) λ v. Safe-pure _

pub int-Safe : Safe read_int
unfolding read_int
int-Safe = Safe-bind _ (n-Safe size_int) λ v. Safe-pure _

cons_string-Returned : (c : ℕ) (o : Outcome Bytes) → Returned o → Returned (cons_string c o)
unfolding cons_string
cons_string-Returned c (ok s b) h = tt
cons_string-Returned c (err e b) h = h

read_c_string-Returned : (b : Bytes) → Returned (read_c_string b)
unfolding read_c_string
read_c_string-Returned [] = refl
read_c_string-Returned (c ∷ b) = elim (Bool-cases (c == 0)) [
  | inl e ↦ rw e tt
  | inr e ↦ rw e (cons_string-Returned c (read_c_string b) (read_c_string-Returned b))
]

pub c_string-Safe : Safe read_c_string
c_string-Safe = Consumes-Safe c_string-Consumes λ b h. read_c_string-Returned b

pub byte-Reads : Reads read_byte (λ n. n < 256)
unfolding read_byte
byte-Reads [] a rest h e = cc
byte-Reads (x ∷ b) a rest h e = rw⁻¹ (ok-injective e).0 h.0

pub n-Reads : (n : ℕ) → Reads (read_n n) (λ l. length l ≡ n)
unfolding read_n
n-Reads n b a rest h e = ground (arith, length-take n b)

pub take-IsBytes : (n : ℕ) (b : Bytes) → IsBytes b → IsBytes (take n b)
take-IsBytes zero b h = tt
take-IsBytes (suc n) [] h = tt
take-IsBytes (suc n) (x ∷ b) h = (h.0, take-IsBytes n b h.1)

pub n-IsBytes : (n : ℕ) → Reads (read_n n) IsBytes
unfolding read_n
n-IsBytes n b a rest h e = elim (Bool-cases (leb n (length b))) [
  | inl p ↦ subst IsBytes (ok-injective (rw p at e)).0 (take-IsBytes n b h)
  | inr p ↦ cc (rw p at e)
]
