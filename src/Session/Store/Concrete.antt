-- ===== src/Session/Store/Concrete.antt =====
-- A concurrent map as an association list without a key twice, with the laws of the interface.
use gosmpp.Prelude.{
  suc, ◌+◌, ◌-◌, ◌≡◌, ◌≢◌, refl, ap, sym, ◌∙◌, Bool, true, false, ◌&&◌, List, [], ◌∷◌, Option, none,
  some, ◌==◌, if◌then◌else◌, Bool-cases, inl, inr, arith, length, ==_iff,
}
use gosmpp.Outcome.{Bytes}
use gosmpp.Session.Store.{Request, ConcurrentMap}
use gosmpp.Session.Store.Refinement.{IsConcurrentMap, is_some}

abbrev pub same : Bytes → Bytes → Bool
same [] [] = true
same (a ∷ k) (b ∷ j) = a == b && same k j
same _ _ = false

pub same_refl : (k : Bytes) → same k k ≡ true
same_refl [] = refl
same_refl (a ∷ k) = ground (arith, same_refl k)

pub same-eq : (k j : Bytes) → same k j ≡ true → k ≡ j
same-eq [] [] e = refl
same-eq (a ∷ k) (b ∷ j) e = elim (Bool-cases (a == b)) [
  | inl p ↦
      let head : a ≡ b = (==_iff a b).0 p in
      let rest : k ≡ j = same-eq k j (rw p at e) in λ i. head i ∷ rest i
  | inr p ↦ cc (rw p at e)
]
same-eq [] (b ∷ j) e = cc
same-eq (a ∷ k) [] e = cc

abbrev Entries : Type 0
Entries = List (Bytes × Request)

abbrev find : Bytes → Entries → Option Request
find k [] = none
find k ((j, q) ∷ l) = if same j k then some q else find k l

abbrev put : Bytes → Request → Entries → Entries
put k q [] = (k, q) ∷ []
put k q ((j, p) ∷ l) = if same j k then (k, q) ∷ l else (j, p) ∷ put k q l

abbrev drop_key : Bytes → Entries → Entries
drop_key k [] = []
drop_key k ((j, p) ∷ l) = if same j k then l else (j, p) ∷ drop_key k l

-- No key stands twice.
abbrev Apart : Bytes → Entries → Type 0
Apart k l = find k l ≡ none

abbrev Distinct : Entries → Type 0
Distinct [] = Unit
Distinct ((k, q) ∷ l) = Apart k l × Distinct l

ne-same : (k j : Bytes) → k ≢ j → same k j ≡ false
ne-same k j h = elim (Bool-cases (same k j)) [ inl e ↦ absurd (h (same-eq k j e)) | inr e ↦ e ]

find-put_same : (k : Bytes) (q : Request) (l : Entries) → find k (put k q l) ≡ some q
find-put_same k q [] = rw (same_refl k) refl
find-put_same k q ((j, p) ∷ l) = elim (Bool-cases (same j k)) [
  | inl e ↦ rw (e, same_refl k) refl
  | inr e ↦ rw (e, e) (find-put_same k q l)
]

find-put_other : (k i : Bytes) (q : Request) (l : Entries) → k ≢ i → find i (put k q l) ≡ find i l
find-put_other k i q [] h = rw (ne-same k i h) refl
find-put_other k i q ((j, p) ∷ l) h = elim (Bool-cases (same j k)) [
  | inl e ↦
      let apart : same j i ≡ false = ne-same j i (λ d. h (sym (same-eq j k e) ∙ d)) in
      rw (e, ne-same k i h, apart) refl
  | inr e ↦ rw e (ap (λ r. if same j i then some p else r) (find-put_other k i q l h))
]

find-drop_other : (k i : Bytes) (l : Entries) → k ≢ i → find i (drop_key k l) ≡ find i l
find-drop_other k i [] h = refl
find-drop_other k i ((j, p) ∷ l) h = elim (Bool-cases (same j k)) [
  | inl e ↦
      let apart : same j i ≡ false = ne-same j i (λ d. h (sym (same-eq j k e) ∙ d)) in
      rw (e, apart) refl
  | inr e ↦ rw e (ap (λ r. if same j i then some p else r) (find-drop_other k i l h))
]

find-drop_same : (k : Bytes) (l : Entries) → Distinct l → find k (drop_key k l) ≡ none
find-drop_same k [] h = refl
find-drop_same k ((j, p) ∷ l) (h, d) = elim (Bool-cases (same j k)) [
  | inl e ↦ rw e (ap (λ x. find x l) (sym (same-eq j k e)) ∙ h)
  | inr e ↦ rw (e, e) (find-drop_same k l d)
]

length-put :
    (k : Bytes) (q : Request) (l : Entries)
    → length (put k q l) ≡ (if is_some (find k l) then length l else length l + 1)
length-put k q [] = refl
length-put k q ((j, p) ∷ l) = elim (Bool-cases (same j k)) [
  | inl e ↦ rw e refl
  | inr e ↦ rw e (elim (Bool-cases (is_some (find k l))) [
    | inl s ↦ rw s (ap suc (rw s at (length-put k q l)))
    | inr s ↦ rw s (omega (arith, rw s at (length-put k q l)))
  ])
]

found_length : (k : Bytes) (l : Entries) → is_some (find k l) ≡ true → suc (length l - 1) ≡ length l
found_length k [] s = cc
found_length k (e ∷ l) s = omega arith

length-drop_key :
    (k : Bytes) (l : Entries)
    → length (drop_key k l) ≡ (if is_some (find k l) then length l - 1 else length l)
length-drop_key k [] = refl
length-drop_key k ((j, p) ∷ l) = elim (Bool-cases (same j k)) [
  | inl e ↦ rw e (omega arith)
  | inr e ↦ rw e (elim (Bool-cases (is_some (find k l))) [
    | inl s ↦ rw s (omega (arith, found_length k l s, rw s at (length-drop_key k l)))
    | inr s ↦ rw s (ap suc (rw s at (length-drop_key k l)))
  ])
]

pub put-Distinct : (k : Bytes) (q : Request) (l : Entries) → Distinct l → Distinct (put k q l)
put-Distinct k q [] d = (refl, tt)
put-Distinct k q ((j, p) ∷ l) (h, d) = elim (Bool-cases (same j k)) [
  | inl e ↦ rw e (ap (λ x. find x l) (sym (same-eq j k e)) ∙ h, d)
  | inr e ↦ rw e (
    find-put_other k j q l (λ s. cc (sym e ∙ ap (λ x. same j x) s ∙ same_refl j)) ∙ h,
    put-Distinct k q l d,
  )
]

find-drop_none :
    (i k : Bytes) (l : Entries) → find i l ≡ none → Distinct l → find i (drop_key k l) ≡ none
find-drop_none i k l h d = elim (Bool-cases (same k i)) [
  | inl e ↦ ap (λ x. find i (drop_key x l)) (same-eq k i e) ∙ find-drop_same i l d
  | inr e ↦ find-drop_other k i l (λ s. cc (sym e ∙ ap (λ x. same k x) (sym s) ∙ same_refl k)) ∙ h
]

pub drop_key-Distinct : (k : Bytes) (l : Entries) → Distinct l → Distinct (drop_key k l)
drop_key-Distinct k [] d = tt
drop_key-Distinct k ((j, p) ∷ l) (h, d) = elim (Bool-cases (same j k)) [
  | inl e ↦ rw e d
  | inr e ↦ rw e (find-drop_none j k l h d, drop_key-Distinct k l d)
]

abbrev pub Table : Type 0
Table = (l : Entries) × Distinct l

abbrev pub empty_table : Table
empty_table = ([], tt)

abbrev pub association_map : ConcurrentMap Table
association_map = record {
  set = λ k q s. (put k q s.0, put-Distinct k q s.0 s.1);
  get = λ k s. find k s.0;
  remove = λ k s. (drop_key k s.0, drop_key-Distinct k s.0 s.1);
  clear = λ s. empty_table;
  items = λ s. s.0;
  count = λ s. length s.0;
}

pub association_map-IsConcurrentMap : IsConcurrentMap association_map
association_map-IsConcurrentMap = record {
  get-set_same = λ k q s. find-put_same k q s.0;
  get-set_other = λ k j q s h. find-put_other k j q s.0 h;
  get-remove_same = λ k s. find-drop_same k s.0 s.1;
  get-remove_other = λ k j s h. find-drop_other k j s.0 h;
  get-clear = λ k s. refl;
  count-set = λ k q s. length-put k q s.0;
  count-remove = λ k s. length-drop_key k s.0;
  count-clear = λ s. refl;
  count-items = λ s. refl;
}
