-- ===== src/Session/Transceiver/Expiry.antt =====
-- A tick of windowCleanup (transceivable.go): which requests it takes out of the window.
use gosmpp.Prelude.{
  ℕ, ◌^◌, ◌<◌, ◌≡◌, refl, ap, ◌∙◌, sym, Bool, true, false, ◌&&◌, ◌||◌, Bool-cases, ◌⊎◌, inl, inr,
  List, [], ◌∷◌, Option, none, some, if◌then◌else◌, ◌==◌, ==_iff,
}
use gosmpp.Packet.{Pdu, get_sequence_number}
use gosmpp.Session.Settings.{Settings, WindowedRequestTracking}
use gosmpp.Session.Store.{Request, RequestStore}
use gosmpp.Session.Store.Refinement.{IsStore}
use gosmpp.Session.Transceiver.{
  Transceiver, Outside, is_expired, hand_back, close_if, expire, expire_one, window_cleanup,
}

abbrev pub IsAmong : Request → List Request → Type 0
IsAmong q [] = ⊥
IsAmong q (p ∷ l) = (p ≡ q) ⊎ IsAmong q l

-- OnExpiredPduRequest never asks to close the bind.
abbrev pub NeverCloses : Option (Pdu → Bool) → Type 0
NeverCloses none = Unit
NeverCloses (some f) = (p : Pdu) → f p ≡ false

module _ {ℓ} {M : Type ℓ} (r : RequestStore M) (view : M → ℕ → Option Request) (size : M → ℕ)
    (h : IsStore r view size) (settings : Settings) (env : Outside) where
  -- The list of the store is its view, and each request stands at its own sequence number.
  pub record IsListed (s : M) : Type 0 where
    pub complete :
        (k : ℕ) (q : Request)
        → k < 2 ^ 32
        → view s k ≡ some q
        → IsAmong q (r.list false s) × (get_sequence_number q.pdu ≡ k)
    pub sound :
        (q : Request)
        → IsAmong q (r.list false s)
        → (get_sequence_number q.pdu < 2 ^ 32) × (view s (get_sequence_number q.pdu) ≡ some q)

  -- What a tick leaves of a place in the window.
  abbrev pub unexpired : WindowedRequestTracking → ℕ → Option Request → Option Request
  unexpired w now none = none
  unexpired w now (some q) = if is_expired r settings env w now q then none else some q

  module _ (w : WindowedRequestTracking) (now : ℕ) where
    abbrev gone : List Request → ℕ → Bool
    gone [] k = false
    gone (q ∷ l) k =
        (is_expired r settings env w now q && (get_sequence_number q.pdu == k)) || gone l k

    gone_among :
        (l : List Request) (q : Request)
        → IsAmong q l
        → is_expired r settings env w now q ≡ true
        → gone l (get_sequence_number q.pdu) ≡ true
    gone_among (p ∷ l) q (inl e) expired =
        rw (e, expired, (==_iff (get_sequence_number q.pdu) (get_sequence_number q.pdu)).1 refl)
          refl
    gone_among (p ∷ l) q (inr m) expired = rw (gone_among l q m expired) (or_true _)
      where
        or_true : (b : Bool) → (b || true) ≡ true
        or_true true = refl
        or_true false = refl
    gone_among [] q m expired = absurd m

    gone-of :
        (l : List Request) (k : ℕ)
        → gone l k ≡ true
        → (q : Request) × IsAmong q l
          × (is_expired r settings env w now q ≡ true)
          × (get_sequence_number q.pdu ≡ k)
    gone-of [] k e = cc
    gone-of (q ∷ l) k e = elim (Bool-cases (is_expired r settings env w now q)) [
      | inl old ↦ elim (Bool-cases (get_sequence_number q.pdu == k)) [
        | inl here ↦ (q, inl refl, old, (==_iff (get_sequence_number q.pdu) k).0 here)
        | inr other ↦ let (p, m, o, s) = gone-of l k (rw (old, other) at e) in (p, inr m, o, s)
      ]
      | inr young ↦ let (p, m, o, s) = gone-of l k (rw young at e) in (p, inr m, o, s)
    ]

    hand_back_store :
        (o : Option (Pdu → Bool)) (q : Request) (t : Transceiver M)
        → NeverCloses o
        → (hand_back r settings env o q t).store ≡ t.store
    unfolding hand_back close_if
    hand_back_store none q t never = refl
    hand_back_store (some f) q t never = rw (never q.pdu) refl

    expire_one-view :
        (ended : ℕ → Bool) (q : Request) (t : Transceiver M) (k : ℕ)
        → NeverCloses w.on_expired_pdu_request
        → ((j : ℕ) → ended j ≡ false)
        → get_sequence_number q.pdu < 2 ^ 32
        → k < 2 ^ 32
        → view (expire_one r settings env w now ended q t).store k ≡ (
            if is_expired r settings env w now q && (get_sequence_number q.pdu == k)
            then none
            else view t.store k)
    unfolding expire_one
    expire_one-view ended q t k never going small hk =
        let seq = get_sequence_number q.pdu in
        elim (Bool-cases (is_expired r settings env w now q)) [
          | inr young ↦ rw young refl
          | inl old ↦
              rw
                (
                  old,
                  hand_back_store w.on_expired_pdu_request q
                      (record t { store = (r.delete (ended seq) seq t.store).0 }) never,
                  going seq,
                )
                (h.delete-view seq t.store k small hk)
        ]

    either_gone :
        (a b : Bool) (o : Option Request)
        → (if b then none else (if a then none else o)) ≡ (if a || b then none else o)
    either_gone true true o = refl
    either_gone true false o = refl
    either_gone false b o = refl

    expire-view :
        (ended : ℕ → Bool) (l : List Request) (t : Transceiver M) (k : ℕ)
        → NeverCloses w.on_expired_pdu_request
        → ((j : ℕ) → ended j ≡ false)
        → ((q : Request) → IsAmong q l → get_sequence_number q.pdu < 2 ^ 32)
        → k < 2 ^ 32
        → view (expire r settings env w now ended l t).store k
          ≡ (if gone l k then none else view t.store k)
    unfolding expire
    expire-view ended [] t k never going small hk = refl
    expire-view ended (q ∷ l) t k never going small hk =
        expire-view ended l (expire_one r settings env w now ended q t) k never going
          (λ p m. small p (inr m)) hk
        ∙ ap (λ o. if gone l k then none else o)
            (expire_one-view ended q t k never going (small q (inl refl)) hk)
        ∙ either_gone (is_expired r settings env w now q && (get_sequence_number q.pdu == k))
            (gone l k) _

    abbrev has_expired : Option Request → Bool
    has_expired none = false
    has_expired (some q) = is_expired r settings env w now q

    gone-unexpired :
        (s : M) (k : ℕ) (o : Option Request)
        → IsListed s
        → k < 2 ^ 32
        → view s k ≡ o
        → (if gone (r.list false s) k then none else o) ≡ unexpired w now o
    gone-unexpired s k none listed hk e = elim (Bool-cases (gone (r.list false s) k)) [
      | inl g ↦ rw g refl
      | inr g ↦ rw g refl
    ]
    gone-unexpired s k (some q) listed hk e =
        elim (Bool-cases (is_expired r settings env w now q)) [
          | inl old ↦
              let (among, at_k) = listed.complete k q hk e in
              let left : gone (r.list false s) k ≡ true =
                ap (gone (r.list false s)) (sym at_k) ∙ gone_among (r.list false s) q among old in
              rw (left, old) refl
          | inr young ↦ elim (Bool-cases (gone (r.list false s) k)) [
            | inr stays ↦ rw (stays, young) refl
            | inl left ↦
                let (p, among, old, at_k) = gone-of (r.list false s) k left in
                let same : some p ≡ some q = sym (listed.sound p among).1 ∙ ap (view s) at_k ∙ e in
                cc (sym old ∙ ap has_expired same ∙ young)
          ]
        ]

    -- A tick of windowCleanup, whose OnExpiredPduRequest never asks to close and in which neither
    -- the context of the list nor one of a deletion has ended, leaves at each sequence number the
    -- request that was there if it is not older than PduExpireTimeOut, and else none, if the list
    -- of the store is its view.
    pub window_cleanup-unexpired :
        (ended : ℕ → Bool) (t : Transceiver M) (k : ℕ)
        → NeverCloses w.on_expired_pdu_request
        → ((j : ℕ) → ended j ≡ false)
        → IsListed t.store
        → k < 2 ^ 32
        → view (window_cleanup r settings env w now false ended t).store k
          ≡ unexpired w now (view t.store k)
    unfolding window_cleanup
    window_cleanup-unexpired ended t k never going listed hk =
        expire-view ended (r.list false t.store) t k never going (λ q m. (listed.sound q m).0) hk
        ∙ gone-unexpired t.store k (view t.store k) listed hk refl
