-- ===== src/Base/Options.antt =====
-- The optional parameters of pdu/PDU.go: what `marshal` writes of the map, unmarshalOptionalParam
-- puts into an empty map again.
use gosmpp.Prelude.{
  ℕ, zero, suc, ◌+◌, ◌≤◌, ◌<◌, ◌≡◌, ◌≢◌, refl, ap, ◌∙◌, sym, [], ◌∷◌, ◌++◌, append_assoc,
  append-nil, All, length, length-append, Option, none, some, arith, ◌==◌, if◌then◌else◌,
}
use gosmpp.Outcome.{Bytes, ok, err, nil_map_write, ◌>>=◌, pure}
use gosmpp.Tlv
use gosmpp.Tlv.{Field}
use gosmpp.Tlv.RoundTrip.{IsTlv, field-Decodes, length-marshal}
use gosmpp.Base.{
  Options, insert, lookup, store, option_field, option_loop, unmarshal_optional_param,
  marshal_entries,
}

abbrev pub Absent : ℕ → Options → Type 0
Absent k = All (λ e. e.0 ≢ k)

-- No key twice, each under its own tag, and each field one that the wire can carry.
abbrev pub IsOptions : Options → Type 0
IsOptions [] = Unit
IsOptions ((k, f) ∷ m) = (k ≡ f.tag) × IsTlv f × Absent k m × IsOptions m

abbrev pub IsOptionsOpt : Option Options → Type 0
IsOptionsOpt none = Unit
IsOptionsOpt (some m) = IsOptions m

-- The map that the receiver starts from.
abbrev pub emptied : Option Options → Option Options
emptied none = none
emptied (some m) = some []

insert-Absent : (k : ℕ) (f : Field) (m : Options) → Absent k m → insert k f m ≡ m ++ ((k, f) ∷ [])
unfolding insert
insert-Absent k f [] h = refl
insert-Absent k f ((j, g) ∷ m) h = ground (arith, insert-Absent k f m h.1)

-- The keys of `acc` and of `m` do not meet.
abbrev Apart : Options → Options → Type 0
Apart acc [] = Unit
Apart acc ((k, f) ∷ m) = Absent k acc × Apart acc m

Apart-nil : (m : Options) → Apart [] m
Apart-nil [] = tt
Apart-nil ((k, f) ∷ m) = (tt, Apart-nil m)

Absent-append : (k : ℕ) (acc m : Options) → Absent k acc → Absent k m → Absent k (acc ++ m)
Absent-append k [] m h hm = hm
Absent-append k (e ∷ acc) m h hm = (h.0, Absent-append k acc m h.1 hm)

Apart-snoc :
    (acc : Options) (k : ℕ) (f : Field) (m : Options)
    → Absent k m
    → Apart acc m
    → Apart (acc ++ ((k, f) ∷ [])) m
Apart-snoc acc k f [] h p = tt
Apart-snoc acc k f ((j, g) ∷ m) h p =
    (Absent-append j acc _ p.0 ((λ e. h.0 (sym e)), tt), Apart-snoc acc k f m h.1 p.1)

option_field-append :
    (acc : Options) (k : ℕ) (f : Field) (rest : Bytes)
    → k ≡ f.tag
    → IsTlv f
    → Absent k acc
    → option_field (some acc) (Tlv.marshal f ++ rest) ≡ ok (some (acc ++ ((k, f) ∷ []))) rest
unfolding option_field store pure ◌>>=◌
option_field-append acc k f rest key h absent = rw ((field-Decodes f h).apply rest) (
    ap (λ j. ok (some (insert j f acc)) rest) (sym key)
    ∙ ap (λ l. ok (some l) rest) (insert-Absent k f acc absent))

option_loop_step :
    (fuel : ℕ) (m m' : Option Options) (b rest : Bytes)
    → 0 < length b
    → option_field m b ≡ ok m' rest
    → option_loop (suc fuel) m b ≡ option_loop fuel m' rest
unfolding option_loop ◌>>=◌
option_loop_step fuel m m' [] rest pos e = absurd (omega arith)
option_loop_step fuel m m' (x ∷ b) rest pos e = rw e

option_loop-entries :
    (fuel : ℕ) (acc m : Options)
    → length (marshal_entries m) ≤ fuel
    → IsOptions m
    → Apart acc m
    → option_loop fuel (some acc) (marshal_entries m) ≡ ok (some (acc ++ m)) []
unfolding marshal_entries
option_loop-entries fuel acc [] h w p = rw append-nil (unfold option_loop in refl)
option_loop-entries zero acc ((k, f) ∷ m) h w p =
    absurd (omega (arith, length-append (Tlv.marshal f) (marshal_entries m), length-marshal f w.1))
option_loop-entries (suc fuel) acc ((k, f) ∷ m) h (key, tlv, absent, w) (pk, p) =
    let size : length (Tlv.marshal f ++ marshal_entries m)
        ≡ length (Tlv.marshal f) + length (marshal_entries m) =
      length-append (Tlv.marshal f) (marshal_entries m) in
    option_loop_step fuel (some acc) _ (Tlv.marshal f ++ marshal_entries m) (marshal_entries m)
      (omega (arith, length-marshal f tlv))
      (option_field-append acc k f (marshal_entries m) key tlv pk)
    ∙ option_loop-entries fuel (acc ++ ((k, f) ∷ [])) m (omega (arith, length-marshal f tlv)) w
        (Apart-snoc acc k f m absent p)
    ∙ ap (λ l. ok (some l) []) (append_assoc acc ((k, f) ∷ []) m)

-- Optional parameters, each under its own tag, no tag twice, with 1 to 32767 bytes of data, are
-- read back into an empty map from the bytes that Marshal wrote in any order of the map.
pub unmarshal_optional_param-entries :
    (m : Options)
    → IsOptions m
    → unmarshal_optional_param (some []) (marshal_entries m) ≡ ok (some m) []
unfolding unmarshal_optional_param
unmarshal_optional_param-entries m w =
    option_loop-entries (length (marshal_entries m)) [] m (omega arith) w (Apart-nil m)

-- Reading an optional parameter with 1 to 32767 bytes of data into a nil map panics.
pub unmarshal_optional_param_nil :
    (f : Field) (rest : Bytes)
    → IsTlv f
    → (b : Bytes) × (unmarshal_optional_param none (Tlv.marshal f ++ rest) ≡ err nil_map_write b)
unfolding unmarshal_optional_param
unmarshal_optional_param_nil f rest h = (
  rest,
  go _ (omega (arith, length-append (Tlv.marshal f) rest, length-marshal f h))
      ((field-Decodes f h).apply rest),
)
  where
    go :
        (b : Bytes)
        → 0 < length b
        → Tlv.unmarshal b ≡ ok f rest
        → option_loop (length b) none b ≡ err nil_map_write rest
    go [] pos e = absurd (omega arith)
    go (x ∷ b) pos e = unfold option_loop option_field store ◌>>=◌ in rw e

-- Registering a field under a tag is found under that tag, and leaves what is found under every
-- other tag.
pub lookup-insert :
    (k j : ℕ) (f : Field) (m : Options)
    → lookup j (insert k f m) ≡ (if k == j then some f else lookup j m)
unfolding lookup insert
lookup-insert k j f [] = refl
lookup-insert k j f ((i, g) ∷ m) = ground (arith, lookup-insert k j f m)
