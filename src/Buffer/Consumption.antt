-- ===== src/Buffer/Consumption.antt =====
-- How far the reads of pdu/Buffer.go move the front of the buffer, also where they fail.
use gosmpp.Prelude.{
  ℕ, ◌≡◌, refl, ap, ◌∙◌, sym, [], ◌∷◌, ◌++◌, append_assoc, length, leb, take, take-append-drop,
  Bool-cases, inl, inr, ◌==◌,
}
use gosmpp.Outcome.{Bytes, Error, Outcome, Reader, ok, err, and_then, pure, ◌>>=◌}
use gosmpp.Buffer.{read_byte, read_n, read_short, read_int, read_c_string, cons_string}

-- The bytes that a read leaves in the buffer.
abbrev pub unread {ℓ} : {A : Type ℓ} → Outcome A → Bytes
unread (ok a b) = b
unread (err e b) = b

abbrev pub EndsIn : Bytes → Bytes → Type 0
EndsIn b rest = (front : Bytes) × (b ≡ front ++ rest)

-- `m` takes bytes from the front only, whether it succeeds or not.
pub record Consumes {ℓ} {A : Type ℓ} (m : Reader A) : Type 0 where
  pub apply : (b : Bytes) → EndsIn b (unread (m b))

EndsIn-trans : (a b c : Bytes) → EndsIn a b → EndsIn b c → EndsIn a c
EndsIn-trans a b c (f, p) (g, q) = (f ++ g, p ∙ ap (λ x. f ++ x) q ∙ sym (append_assoc f g c))

module _ {ℓ} {A : Type ℓ} where
  pub Consumes-pure : (a : A) → Consumes (pure a)
  unfolding pure
  Consumes-pure a = record { apply = λ b. ([], refl) }

  pub Consumes-err : (e : Error) → Consumes {A = A} (err e)
  Consumes-err e = record { apply = λ b. ([], refl) }

  pub Consumes-bind {κ} :
      {B : Type κ} {m : Reader A} (f : A → Reader B)
      → Consumes m
      → ((a : A) → Consumes (f a))
      → Consumes (m >>= f)
  unfolding ◌>>=◌
  Consumes-bind {m = m} f h k = record { apply = λ b. go b (m b) (h.apply b) }
    where
      go : (b : Bytes) (o : Outcome A) → EndsIn b (unread o) → EndsIn b (unread (and_then o f))
      go b (ok a b') p = EndsIn-trans b b' _ p ((k a).apply b')
      go b (err e b') p = p

pub byte-Consumes : Consumes read_byte
unfolding read_byte
byte-Consumes = record { apply = elim [ [] ↦ ([], refl) | x ∷ b ↦ (x ∷ [], refl) ] }

pub n-Consumes : (n : ℕ) → Consumes (read_n n)
unfolding read_n
n-Consumes n = record {
  apply = λ b. elim (Bool-cases (leb n (length b))) [
    | inl e ↦ rw e (take n b, sym (take-append-drop n b))
    | inr e ↦ rw e ([], refl)
  ];
}

pub short-Consumes : Consumes read_short
unfolding read_short
short-Consumes = Consumes-bind _ (n-Consumes _) (λ v. Consumes-pure _)

pub int-Consumes : Consumes read_int
unfolding read_int
int-Consumes = Consumes-bind _ (n-Consumes _) (λ v. Consumes-pure _)

cons_string-unread : (c : ℕ) (o : Outcome Bytes) → unread (cons_string c o) ≡ unread o
unfolding cons_string
cons_string-unread c (ok s b) = refl
cons_string-unread c (err e b) = refl

read_c_string-EndsIn : (b : Bytes) → EndsIn b (unread (read_c_string b))
unfolding read_c_string
read_c_string-EndsIn [] = ([], refl)
read_c_string-EndsIn (c ∷ b) =
    let ih : EndsIn b (unread (read_c_string b)) = read_c_string-EndsIn b in
    elim (Bool-cases (c == 0)) [
      | inl e ↦ rw e (c ∷ [], refl)
      | inr e ↦ rw (e, cons_string-unread c (read_c_string b)) (c ∷ ih.0, ap (λ l. c ∷ l) ih.1)
    ]

pub c_string-Consumes : Consumes read_c_string
c_string-Consumes = record { apply = read_c_string-EndsIn }
