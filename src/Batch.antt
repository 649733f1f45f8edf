-- ===== src/Batch.antt =====
-- The loops of UnsuccessSMEs and DestinationAddresses (pdu/UnsuccessSME.go and
-- pdu/DestinationAddress.go): one count byte, and that many entries.
use gosmpp.Prelude.{
  ℕ, zero, suc, ◌%◌, ◌<◌, ◌≡◌, List, [], ◌∷◌, ◌++◌, All, length, take, take-append, append-nil, map,
  arith,
}
use gosmpp.Outcome.{Bytes, Reader, pure, ◌>>=◌, Decodes, Decodes-bind, Decodes-pure, Decodes-last}
use gosmpp.Buffer.{read_byte, write_byte}
use gosmpp.Buffer.RoundTrip.{byte-Decodes}
use gosmpp.Buffer.Consumption.{Consumes, Consumes-bind, Consumes-pure, byte-Consumes}

module _ {ℓ} {A : Type ℓ} where
  unfoldable pub read_entries : Reader A → ℕ → Reader (List A)
  read_entries m zero = pure []
  read_entries m (suc n) = do a ← m; l ← read_entries m n; pure (a ∷ l)

  unfoldable pub read_batch : Reader A → Reader (List A)
  unfolding read_entries
  read_batch m = do n ← read_byte; read_entries m n

  unfoldable pub write_entries : (A → Bytes) → List A → Bytes
  write_entries f [] = []
  write_entries f (a ∷ l) = f a ++ write_entries f l

  -- `n := byte(len(c.l))`, and the first n entries.
  unfoldable pub write_batch : (A → Bytes) → List A → Bytes
  unfolding write_entries
  write_batch f l = write_byte (length l % 256) ++ write_entries f (take (length l % 256) l)

  -- `f` writes an entry, and `m` reads it back as `g` of it.
  entries-Decodes :
      (m : Reader A) (f : A → Bytes) (g : A → A) (l : List A)
      → All (λ a. Decodes m (f a) (g a)) l
      → Decodes (read_entries m (length l)) (write_entries f l) (map g l)
  unfolding read_entries write_entries
  entries-Decodes m f g [] h = Decodes-pure _
  entries-Decodes m f g (a ∷ l) (h, hs) =
      Decodes-bind _ h (Decodes-last _ (entries-Decodes m f g l hs))

  pub batch-Decodes :
      (m : Reader A) (f : A → Bytes) (g : A → A) (l : List A)
      → length l < 256
      → All (λ a. Decodes m (f a) (g a)) l
      → Decodes (read_batch m) (write_batch f l) (map g l)
  unfolding read_batch write_batch
  batch-Decodes m f g l short h =
      let fits : length l % 256 ≡ length l = omega arith in
      let whole : take (length l) l ≡ l = rw append-nil at (take-append l []) in
      rw (fits, whole) (Decodes-bind _ (byte-Decodes _) (entries-Decodes m f g l h))

  entries-Consumes : (m : Reader A) (n : ℕ) → Consumes m → Consumes (read_entries m n)
  unfolding read_entries
  entries-Consumes m zero h = Consumes-pure _
  entries-Consumes m (suc n) h =
      Consumes-bind _ h λ a. Consumes-bind _ (entries-Consumes m n h) λ l. Consumes-pure _

  pub batch-Consumes : (m : Reader A) → Consumes m → Consumes (read_batch m)
  unfolding read_batch
  batch-Consumes m h = Consumes-bind _ byte-Consumes λ n. entries-Consumes m n h
