-- ===== src/Splitting/Segments.antt =====
-- The segments of data/codings.go make up the text, and none has more septets than there is room for.
use gosmpp.Prelude.{
  ℕ, zero, suc, ◌+◌, ◌-◌, ◌≤◌, ◌<◌, ◌≡◌, refl, ap, ◌∙◌, arith, Bool, true, false, ◌&&◌, Bool-cases,
  inl, inr, List, [], ◌∷◌, ◌++◌, All, ltb, ltb→lt, lt→ltb, ge→ltb, length, take, drop,
  take-append-drop, length-drop,
}
use gosmpp.Gsm7.{is_escape_char, get_escape_chars}
use gosmpp.Splitting.{
  septets_for, passed, scan, ends_in_escape, step_back, determine_to, packed_segments, segments,
  get_septet_count,
}

abbrev pub joined : List (List ℕ) → List ℕ
joined [] = []
joined (seg ∷ l) = seg ++ joined l

escapes_few : (l : List ℕ) → length (get_escape_chars l) ≤ length l
unfolding get_escape_chars
escapes_few [] = omega arith
escapes_few (r ∷ l) = elim (Bool-cases (is_escape_char r)) [
  | inl e ↦ rw e (omega (arith, escapes_few l))
  | inr e ↦ rw e (omega (arith, escapes_few l))
]

pub get_septet_count-cons :
    (r : ℕ) (l : List ℕ) → get_septet_count (r ∷ l) ≡ septets_for r + get_septet_count l
unfolding get_septet_count get_escape_chars septets_for
get_septet_count-cons r l = elim (Bool-cases (is_escape_char r)) [
  | inl e ↦ rw e (omega (arith, escapes_few l))
  | inr e ↦ rw e (omega (arith, escapes_few l))
]

segments-joined : (n lim : ℕ) (l : List ℕ) → 0 < lim → length l ≤ n → joined (segments n lim l) ≡ l
unfolding segments
segments-joined zero lim [] positive enough = refl
segments-joined zero lim (r ∷ l) positive enough = absurd (omega arith)
segments-joined (suc n) lim [] positive enough = refl
segments-joined (suc n) lim (r ∷ l) positive enough =
    ap (λ x. take lim (r ∷ l) ++ x)
      (segments-joined n lim (drop lim (r ∷ l)) positive (omega (arith, length-drop lim (r ∷ l))))
    ∙ take-append-drop lim (r ∷ l)

septets_bound : (r : ℕ) → septets_for r ≤ 2
unfolding septets_for
septets_bound r = elim (Bool-cases (is_escape_char r)) [
  | inl e ↦ rw e (omega arith)
  | inr e ↦ rw e (omega arith)
]

septets_regular : (r : ℕ) → is_escape_char r ≡ false → septets_for r ≡ 1
unfolding septets_for
septets_regular r e = rw e refl

pub count_none : get_septet_count [] ≡ 0
unfolding get_septet_count get_escape_chars
count_none = omega arith

goes_on : (b : Bool) (x : ℕ × ℕ) (n k : ℕ) → (passed b x n).0 ≡ suc k → b ≡ true
unfolding passed
goes_on true x n k e = refl
goes_on false x n k e = absurd (omega arith)

stops_at : (b : Bool) (x : ℕ × ℕ) (n : ℕ) → (passed b x n).0 ≡ 0 → (passed b x n).1 ≡ n
unfolding passed
stops_at true (k, n') n e = absurd (omega arith)
stops_at false x n e = refl

-- A rune is passed only where there is room.
scan_room : (lim n m : ℕ) (l : List ℕ) (k : ℕ) → (scan lim n m l).0 ≡ suc k → n < lim
unfolding scan
scan_room lim n zero l k e = absurd (omega arith)
scan_room lim n (suc m) [] k e = absurd (omega arith)
scan_room lim n (suc m) (r ∷ l) k e = ltb→lt n lim (goes_on (ltb n lim) _ n k e)

scan_zero : (lim n m : ℕ) (l : List ℕ) → (scan lim n m l).0 ≡ 0 → (scan lim n m l).1 ≡ n
unfolding scan
scan_zero lim n zero l e = refl
scan_zero lim n (suc m) [] e = refl
scan_zero lim n (suc m) (r ∷ l) e = stops_at (ltb n lim) _ n e

one_less : (k : ℕ) → suc k - 1 ≡ k
one_less k = omega arith

-- One rune in front of a segment that fits.
one_more :
    (lim n r : ℕ) (l : List ℕ) (x : ℕ × ℕ)
    → n < lim
    → (x.0 ≡ 0 → x.1 ≡ n + septets_for r)
    → ((k : ℕ) → x.0 ≡ suc k → n + septets_for r < lim)
    → (n + septets_for r ≤ lim
        → (n + septets_for r) + get_septet_count (take (step_back lim x l) l) ≤ lim)
    → n + get_septet_count (take (step_back lim (suc x.0, x.1) (r ∷ l)) (r ∷ l)) ≤ lim
unfolding step_back ends_in_escape
one_more lim n r l (zero, n') room last more fits = elim (Bool-cases (is_escape_char r)) [
  | inr regular ↦
      rw regular
        (rw (get_septet_count-cons r [], count_none, septets_regular r regular) (omega arith))
  | inl escape ↦ rw escape (elim (Bool-cases (ltb lim n')) [
    | inl over ↦ rw (over, count_none) (omega arith)
    | inr under ↦
        rw (under, get_septet_count-cons r [], count_none)
          (omega (arith, last refl, ltb-false lim n' under))
  ])
]
  where
    ltb-false : (a b : ℕ) → ltb a b ≡ false → b ≤ a
    ltb-false a b e = ground arith
one_more lim n r l (suc k, n') room last more fits =
    let rest = fits (omega (arith, more k refl)) in
    elim (Bool-cases (ends_in_escape (suc k) l && ltb lim n')) [
      | inl back ↦
          rw (back, one_less (suc k), get_septet_count-cons r (take k l))
            (omega (arith, rw (back, one_less k) at rest))
      | inr stay ↦
          rw (stay, get_septet_count-cons r (take (suc k) l)) (omega (arith, rw stay at rest))
    ]

passed-fits :
    (b : Bool) (lim n r : ℕ) (l : List ℕ) (x : ℕ × ℕ)
    → ltb n lim ≡ b
    → n ≤ lim
    → (x.0 ≡ 0 → x.1 ≡ n + septets_for r)
    → ((k : ℕ) → x.0 ≡ suc k → n + septets_for r < lim)
    → (n + septets_for r ≤ lim
        → (n + septets_for r) + get_septet_count (take (step_back lim x l) l) ≤ lim)
    → n + get_septet_count (take (step_back lim (passed b x n) (r ∷ l)) (r ∷ l)) ≤ lim
unfolding passed step_back ends_in_escape
passed-fits true lim n r l x room h last more fits =
    one_more lim n r l x (ltb→lt n lim room) last more fits
passed-fits false lim n r l x room h last more fits = rw count_none (omega arith)

scan-fits :
    (lim n m : ℕ) (l : List ℕ)
    → n ≤ lim
    → n + get_septet_count (take (step_back lim (scan lim n m l) l) l) ≤ lim
unfolding scan step_back ends_in_escape
scan-fits lim n zero l h = rw count_none (omega arith)
scan-fits lim n (suc m) [] h = rw count_none (omega arith)
scan-fits lim n (suc m) (r ∷ l) h =
    passed-fits (ltb n lim) lim n r l (scan lim (n + septets_for r) m l) refl h
      (scan_zero lim (n + septets_for r) m l) (scan_room lim (n + septets_for r) m l)
      (scan-fits lim (n + septets_for r) m l)

pub determine_to-fits :
    (lim : ℕ) (l : List ℕ) → get_septet_count (take (determine_to lim l) l) ≤ lim
unfolding determine_to
determine_to-fits lim l = omega (arith, scan-fits lim 0 lim l (omega arith))

passed_progress :
    (b : Bool) (lim r : ℕ) (l : List ℕ) (x : ℕ × ℕ)
    → b ≡ true
    → 2 ≤ lim
    → (x.0 ≡ 0 → x.1 ≡ 0 + septets_for r)
    → 0 < step_back lim (passed b x 0) (r ∷ l)
unfolding passed step_back ends_in_escape
passed_progress false lim r l x e h last = cc
passed_progress true lim r l (zero, n') e h last =
    let fits : ltb lim n' ≡ false = ge→ltb lim n' (omega (arith, last refl, septets_bound r)) in
    elim (Bool-cases (is_escape_char r)) [
      | inl escape ↦ rw (escape, fits) (omega arith)
      | inr regular ↦ rw regular (omega arith)
    ]
passed_progress true lim r l (suc k, n') e h last =
    elim (Bool-cases (ends_in_escape (suc k) l && ltb lim n')) [
      | inl back ↦ rw back (omega arith)
      | inr stay ↦ rw stay (omega arith)
    ]

determine_to-progress : (lim r : ℕ) (l : List ℕ) → 2 ≤ lim → 0 < determine_to lim (r ∷ l)
unfolding determine_to scan
determine_to-progress zero r l h = absurd (omega arith)
determine_to-progress (suc m) r l h =
    passed_progress (ltb 0 (suc m)) (suc m) r l (scan (suc m) (0 + septets_for r) m l)
      (lt→ltb 0 (suc m) (omega arith)) h (scan_zero (suc m) (0 + septets_for r) m l)

-- The segments into which EncodeSplit of the packed GSM 7-bit alphabet cuts a text make up the
-- text in order, where at least two septets go into a segment and the fuel is the number of runes.
pub packed_segments-joined :
    (n lim : ℕ) (l : List ℕ) → 2 ≤ lim → length l ≤ n → joined (packed_segments n lim l) ≡ l
unfolding packed_segments
packed_segments-joined zero lim [] h enough = refl
packed_segments-joined zero lim (r ∷ l) h enough = absurd (omega arith)
packed_segments-joined (suc n) lim [] h enough = refl
packed_segments-joined (suc n) lim (r ∷ l) h enough =
    let k = determine_to lim (r ∷ l) in
    ap (λ x. take k (r ∷ l) ++ x)
      (packed_segments-joined n lim (drop k (r ∷ l)) h
        (omega (arith, length-drop k (r ∷ l), determine_to-progress lim r l h)))
    ∙ take-append-drop k (r ∷ l)

pub packed_segments-fit :
    (n lim : ℕ) (l : List ℕ) → All (λ seg. get_septet_count seg ≤ lim) (packed_segments n lim l)
unfolding packed_segments
packed_segments-fit zero lim l = tt
packed_segments-fit (suc n) lim [] = tt
packed_segments-fit (suc n) lim (r ∷ l) =
    let k = determine_to lim (r ∷ l) in
    (determine_to-fits lim (r ∷ l), packed_segments-fit n lim (drop k (r ∷ l)))
