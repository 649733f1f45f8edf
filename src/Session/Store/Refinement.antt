-- ===== src/Session/Store/Refinement.antt =====
-- What a RequestStore (request_store.go) promises, and that DefaultStore keeps the promise.
use gosmpp.Prelude.{
  ℕ, suc, ◌+◌, ◌-◌, ◌^◌, ◌<◌, ◌≡◌, ◌≢◌, refl, ap, sym, ◌∙◌, Bool, true, false, List, [], ◌∷◌, map,
  Option, none, some, ◌==◌, if◌then◌else◌, Bool-cases, inl, inr, arith, length, ==_iff,
}
use gosmpp.Outcome.{Bytes}
use gosmpp.Packet.{get_sequence_number}
use gosmpp.Session.Failure.{context_ended}
use gosmpp.Session.Decimal.{itoa, itoa-injective}
use gosmpp.Session.Store.{
  Request, ConcurrentMap, RequestStore, default_store, store_set, store_get, store_list,
  store_delete, store_clear, store_length,
}

abbrev pub is_some {ℓ} : {A : Type ℓ} → Option A → Bool
is_some none = false
is_some (some a) = true

-- The documented behaviour of the concurrent map: a finite map with a count.
pub record IsConcurrentMap {ℓ} {M : Type ℓ} (m : ConcurrentMap M) : Type ℓ where
  pub get-set_same : (k : Bytes) (q : Request) (s : M) → m.get k (m.set k q s) ≡ some q
  pub get-set_other :
      (k j : Bytes) (q : Request) (s : M) → k ≢ j → m.get j (m.set k q s) ≡ m.get j s
  pub get-remove_same : (k : Bytes) (s : M) → m.get k (m.remove k s) ≡ none
  pub get-remove_other : (k j : Bytes) (s : M) → k ≢ j → m.get j (m.remove k s) ≡ m.get j s
  pub get-clear : (k : Bytes) (s : M) → m.get k (m.clear s) ≡ none
  pub count-set :
      (k : Bytes) (q : Request) (s : M)
      → m.count (m.set k q s) ≡ (if is_some (m.get k s) then m.count s else m.count s + 1)
  pub count-remove :
      (k : Bytes) (s : M)
      → m.count (m.remove k s) ≡ (if is_some (m.get k s) then m.count s - 1 else m.count s)
  pub count-clear : (s : M) → m.count (m.clear s) ≡ 0
  pub count-items : (s : M) → m.count s ≡ length (m.items s)

-- The abstract store: a function from sequence numbers to requests, changed at one of them.
abbrev pub update : (ℕ → Option Request) → ℕ → Option Request → ℕ → Option Request
update f k q j = if k == j then q else f j

-- `r` implements the abstract store `view` with `size` requests, on int32 sequence numbers: each
-- operation changes the view at its sequence number alone, keeps the size right, and does nothing but
-- give the context's error once the context has ended.
pub record IsStore {ℓ} {M : Type ℓ} (r : RequestStore M) (view : M → ℕ → Option Request)
    (size : M → ℕ) : Type ℓ where
  pub set-view :
      (q : Request) (s : M) (k : ℕ)
      → get_sequence_number q.pdu < 2 ^ 32
      → k < 2 ^ 32
      → view (r.set false q s).0 k ≡ update (view s) (get_sequence_number q.pdu) (some q) k
  pub set-size :
      (q : Request) (s : M)
      → size (r.set false q s).0
        ≡ (if is_some (view s (get_sequence_number q.pdu)) then size s else size s + 1)
  pub set-succeeds : (q : Request) (s : M) → (r.set false q s).1 ≡ none
  pub get-view : (k : ℕ) (s : M) → r.get false k s ≡ view s k
  pub delete-view :
      (k : ℕ) (s : M) (j : ℕ)
      → k < 2 ^ 32
      → j < 2 ^ 32
      → view (r.delete false k s).0 j ≡ update (view s) k none j
  pub delete-size :
      (k : ℕ) (s : M)
      → size (r.delete false k s).0 ≡ (if is_some (view s k) then size s - 1 else size s)
  pub delete-succeeds : (k : ℕ) (s : M) → (r.delete false k s).1 ≡ none
  pub clear-view : (s : M) (k : ℕ) → view (r.clear false s).0 k ≡ none
  pub clear-size : (s : M) → size (r.clear false s).0 ≡ 0
  pub length-size : (s : M) → r.length false s ≡ (size s, none)
  pub list-size : (s : M) → length (r.list false s) ≡ size s
  pub set-ended : (q : Request) (s : M) → r.set true q s ≡ (s, some context_ended)
  pub get-ended : (k : ℕ) (s : M) → r.get true k s ≡ none
  pub delete-ended : (k : ℕ) (s : M) → r.delete true k s ≡ (s, some context_ended)
  pub clear-ended : (s : M) → r.clear true s ≡ (s, some context_ended)
  pub length-ended : (s : M) → (r.length true s).1 ≡ some context_ended
  pub list-ended : (s : M) → r.list true s ≡ []

length-map {ℓ κ} : {A : Type ℓ} {B : Type κ} (f : A → B) (l : List A) → length (map f l) ≡ length l
length-map f [] = refl
length-map f (a ∷ l) = ap suc (length-map f l)

module _ {ℓ} {M : Type ℓ} (m : ConcurrentMap M) (h : IsConcurrentMap m) where
  set-update :
      (k : ℕ) (q : Request) (s : M) (j : ℕ)
      → k < 2 ^ 32
      → j < 2 ^ 32
      → m.get (itoa j) (m.set (itoa k) q s) ≡ update (λ i. m.get (itoa i) s) k (some q) j
  set-update k q s j hk hj = elim (Bool-cases (k == j)) [
    | inl e ↦
        let same : k ≡ j = (==_iff k j).0 e in
        rw e
          (ap (λ i. m.get (itoa i) (m.set (itoa k) q s)) (sym same) ∙ h.get-set_same (itoa k) q s)
    | inr e ↦ rw e (
        h.get-set_other (itoa k) (itoa j) q s
          λ p. let same : k ≡ j = itoa-injective k j hk hj p in ground arith)
  ]

  remove-update :
      (k : ℕ) (s : M) (j : ℕ)
      → k < 2 ^ 32
      → j < 2 ^ 32
      → m.get (itoa j) (m.remove (itoa k) s) ≡ update (λ i. m.get (itoa i) s) k none j
  remove-update k s j hk hj = elim (Bool-cases (k == j)) [
    | inl e ↦
        let same : k ≡ j = (==_iff k j).0 e in
        rw e
          (ap (λ i. m.get (itoa i) (m.remove (itoa k) s)) (sym same) ∙ h.get-remove_same (itoa k) s)
    | inr e ↦ rw e (
        h.get-remove_other (itoa k) (itoa j) s
          λ p. let same : k ≡ j = itoa-injective k j hk hj p in ground arith)
  ]

  -- Over any concurrent map that is a finite map with a count, DefaultStore implements the
  -- abstract store, a function from int32 sequence numbers to requests: each operation changes it
  -- at its sequence number alone and keeps the size right, and does nothing but report the end of
  -- its context once that has ended.
  pub default_store-IsStore : IsStore (default_store m) (λ s k. m.get (itoa k) s) m.count
  unfolding store_set store_get store_list store_delete store_clear store_length
  default_store-IsStore = record {
    set-view = λ q s k. set-update (get_sequence_number q.pdu) q s k;
    set-size = λ q s. h.count-set _ q s;
    set-succeeds = λ q s. refl;
    get-view = λ k s. refl;
    delete-view = λ k s j. remove-update k s j;
    delete-size = λ k s. h.count-remove _ s;
    delete-succeeds = λ k s. refl;
    clear-view = λ s k. h.get-clear _ s;
    clear-size = λ s. h.count-clear s;
    length-size = λ s. refl;
    list-size = λ s. length-map _ (m.items s) ∙ sym (h.count-items s);
    set-ended = λ q s. refl;
    get-ended = λ k s. refl;
    delete-ended = λ k s. refl;
    clear-ended = λ s. refl;
    length-ended = λ s. refl;
    list-ended = λ s. refl;
  }
