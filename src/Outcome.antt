-- ===== src/Outcome.antt =====
-- What a read from a ByteBuffer gives: the error values of errors/pkg.go and of the pdu package,
-- and a value or an error together with the bytes that are still unread.
use gosmpp.Prelude.{ℕ, ◌≡◌, refl, List, [], ◌∷◌, ◌++◌, append_assoc}

-- `eof` and `unexpected_eof` are io.EOF and io.ErrUnexpectedEOF. `nil_map_write` and
-- `slice_out_of_range` are run-time panics: a write to a nil map, and a slice expression out of
-- range. `out_of_fuel` is no Go value: a loop used up its fuel.
pub data Error : Type 0 where
  eof unexpected_eof not_enough_bytes invalid_pdu unknown_command_id : Error
  unrecognized_dest_flag : ℕ → Error
  udhl_underflow udhl_zero udh_underflow info_element_underflow udh_too_long : Error
  address_too_long name_too_long message_too_long udh_limit : Error
  nil_map_write slice_out_of_range nil_interface out_of_fuel : Error

abbrev pub Bytes : Type 0
Bytes = List ℕ

pub data Outcome {ℓ} (A : Type ℓ) : Type ℓ where
  ok : A → Bytes → Outcome A
  err : Error → Bytes → Outcome A

abbrev pub Reader {ℓ} : Type ℓ → Type ℓ
Reader A = Bytes → Outcome A

unfoldable pub pure {ℓ} : {A : Type ℓ} → A → Reader A
pure a b = ok a b

abbrev pub and_then {ℓ κ} : {A : Type ℓ} {B : Type κ} → Outcome A → (A → Reader B) → Outcome B
and_then (ok a b) f = f a b
and_then (err e b) f = err e b

-- `if a, err = m; err == nil { f(a) }`
infixl 5 ◌>>=◌
unfoldable pub ◌>>=◌ {ℓ κ} : {A : Type ℓ} {B : Type κ} → Reader A → (A → Reader B) → Reader B
◌>>=◌ m f b = and_then (m b) f

-- Inversion of a bind that succeeded.
pub and_then-eq-ok {ℓ κ} :
    {A : Type ℓ} {B : Type κ} (o : Outcome A) (f : A → Reader B) {b : B} {rest : Bytes}
    → and_then o f ≡ ok b rest
    → (a : A) × (left : Bytes) × (o ≡ ok a left) × (f a left ≡ ok b rest)
and_then-eq-ok (ok a left) f h = (a, left, refl, h)
and_then-eq-ok (err e left) f h = cc

pub ok-injective {ℓ} :
    {A : Type ℓ} {a a' : A} {b b' : Bytes} → ok a b ≡ ok a' b' → (a ≡ a') × (b ≡ b')
ok-injective e = (cc, cc)

-- A Marshal is the list of its writes, one after the other.
abbrev pub writes : List Bytes → Bytes
writes [] = []
writes (w ∷ ws) = w ++ writes ws

-- `m` reads the value `a` off the bytes `bs` and leaves whatever follows them.
pub record Decodes {ℓ} {A : Type ℓ} (m : Reader A) (bs : Bytes) (a : A) : Type ℓ where
  pub apply : (rest : Bytes) → m (bs ++ rest) ≡ ok a rest

module _ {ℓ} {A : Type ℓ} where
  pub Decodes-pure : (a : A) → Decodes (pure a) [] a
  unfolding pure
  Decodes-pure a = record { apply = λ rest. refl }

  pub Decodes-bind {κ} :
      {B : Type κ} {m : Reader A} {bs cs : Bytes} {a : A} {b : B} (f : A → Reader B)
      → Decodes m bs a
      → Decodes (f a) cs b
      → Decodes (m >>= f) (bs ++ cs) b
  unfolding ◌>>=◌
  Decodes-bind {bs = bs} {cs = cs} f h k = record {
    apply = λ rest. rw (append_assoc bs cs rest, h.apply (cs ++ rest)) (k.apply rest);
  }

  -- A reader whose last step only wraps what it read.
  pub Decodes-last {κ} :
      {B : Type κ} {m : Reader A} {bs : Bytes} {a : A} (f : A → B)
      → Decodes m bs a
      → Decodes (m >>= λ x. pure (f x)) bs (f a)
  unfolding ◌>>=◌ pure
  Decodes-last f h = record { apply = λ rest. rw (h.apply rest) }
