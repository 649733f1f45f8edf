-- ===== src/Session/Receiver/Matching.antt =====
-- The window in handleWindowPdu of receivable.go: responses are matched with the requests that
-- transmittable.go remembered.
use gosmpp.Prelude.{
  ℕ, ◌+◌, ◌^◌, ◌<◌, ◌≡◌, refl, ap, ◌∙◌, sym, Bool, true, false, [], ◌∷◌, Option, none, some, ◌==◌,
  ==_iff, arith, Bool-cases, inl, inr,
}
use gosmpp.Globals.{Globals}
use gosmpp.Packet.{Pdu, get_sequence_number}
use gosmpp.Response.{can_response, get_response}
use gosmpp.Wire.Sequence.{get_sequence_number-marshal}
use gosmpp.Session.Settings.{
  Settings, WindowedRequestTracking, on_expected_pdu_response, on_unexpected_pdu_response,
}
use gosmpp.Session.Store.{Request, RequestStore}
use gosmpp.Session.Store.Refinement.{IsStore, update}
use gosmpp.Session.Transmitter.{WriteEnv, Written, is_allow_pdu, write, window_size}
use gosmpp.Session.Transmitter.Window.{GoesWell, remembered, write-remembered}
use gosmpp.Session.Receiver.{ReadEnv, Handled, handle_window_pdu, is_window_response, matched}

abbrev frees_place : Option Pdu → Bool
unfolding is_window_response
frees_place none = false
frees_place (some r) = is_window_response r

-- A request takes a place in the window exactly if the response that GetResponse makes for it is
-- one that handleWindowPdu looks up in the window.
pub is_window_response-is_allow_pdu :
    (g : Globals) (p r : Pdu)
    → (get_response g p).0 ≡ some r
    → is_window_response r ≡ is_allow_pdu p
unfolding get_response is_window_response is_allow_pdu can_response
is_window_response-is_allow_pdu g (Pdu.alert_notification c) r e = cc
is_window_response-is_allow_pdu g (Pdu.bind_request c) r e = sym (ap frees_place e)
is_window_response-is_allow_pdu g (Pdu.bind_resp c) r e = cc
is_window_response-is_allow_pdu g (Pdu.cancel_sm c) r e = sym (ap frees_place e)
is_window_response-is_allow_pdu g (Pdu.cancel_sm_resp c) r e = cc
is_window_response-is_allow_pdu g (Pdu.data_sm c) r e = sym (ap frees_place e)
is_window_response-is_allow_pdu g (Pdu.data_sm_resp c) r e = cc
is_window_response-is_allow_pdu g (Pdu.deliver_sm c) r e = sym (ap frees_place e)
is_window_response-is_allow_pdu g (Pdu.deliver_sm_resp c) r e = cc
is_window_response-is_allow_pdu g (Pdu.enquire_link c) r e = sym (ap frees_place e)
is_window_response-is_allow_pdu g (Pdu.enquire_link_resp c) r e = cc
is_window_response-is_allow_pdu g (Pdu.generic_nack c) r e = cc
is_window_response-is_allow_pdu g (Pdu.outbind c) r e = cc
is_window_response-is_allow_pdu g (Pdu.query_sm c) r e = sym (ap frees_place e)
is_window_response-is_allow_pdu g (Pdu.query_sm_resp c) r e = cc
is_window_response-is_allow_pdu g (Pdu.replace_sm c) r e = sym (ap frees_place e)
is_window_response-is_allow_pdu g (Pdu.replace_sm_resp c) r e = cc
is_window_response-is_allow_pdu g (Pdu.submit_multi c) r e = sym (ap frees_place e)
is_window_response-is_allow_pdu g (Pdu.submit_multi_resp c) r e = cc
is_window_response-is_allow_pdu g (Pdu.submit_sm c) r e = sym (ap frees_place e)
is_window_response-is_allow_pdu g (Pdu.submit_sm_resp c) r e = cc
is_window_response-is_allow_pdu g (Pdu.unbind c) r e = sym (ap frees_place e)
is_window_response-is_allow_pdu g (Pdu.unbind_resp c) r e = cc

module _ {ℓ} {M : Type ℓ} (r : RequestStore M) (view : M → ℕ → Option Request) (size : M → ℕ)
    (h : IsStore r view size) where
  abbrev pub expected : Globals → Pdu → Request → Handled
  expected g p q = record {
    globals = g;
    events = on_expected_pdu_response p q ∷ [];
    closing = false;
  }

  found : (b : Bool) (k : ℕ) (s : M) → b ≡ false → r.get b k s ≡ view s k
  found b k s e = rw e (h.get-view k s)

  pub handle_window_pdu-expected :
      (w : WindowedRequestTracking) (env : ReadEnv) (g : Globals) (s : M) (p : Pdu) (q : Request)
      → is_window_response p ≡ true
      → env.get_ended ≡ false
      → env.delete_ended ≡ false
      → view s (get_sequence_number p) ≡ some q
      → handle_window_pdu r w env g s p
        ≡ ((r.delete false (get_sequence_number p) s).0, expected g p q)
  unfolding handle_window_pdu matched
  handle_window_pdu-expected w env g s p q window got deleted there =
      rw (window, found env.get_ended (get_sequence_number p) s got, there, deleted) refl

  pub handle_window_pdu-unexpected :
      (w : WindowedRequestTracking) (env : ReadEnv) (g : Globals) (s : M) (p : Pdu)
      → is_window_response p ≡ true
      → env.get_ended ≡ false
      → view s (get_sequence_number p) ≡ none
      → w.on_unexpected_pdu_response ≡ true
      → handle_window_pdu r w env g s p
        ≡ (s, record { globals = g; events = on_unexpected_pdu_response p ∷ []; closing = false })
  unfolding handle_window_pdu matched
  handle_window_pdu-unexpected w env g s p window got missing told =
      rw (window, found env.get_ended (get_sequence_number p) s got, missing, told) refl

  -- The store that forgets a request it has just got is the store before.
  module _ (q : Request) (s : M) (k : ℕ) (same : get_sequence_number q.pdu ≡ k)
      (fresh : view s k ≡ none) where
    view-removed :
        (j : ℕ)
        → k < 2 ^ 32
        → j < 2 ^ 32
        → view (r.delete false k (r.set false q s).0).0 j ≡ view s j
    view-removed j hk hj =
        let before : view (r.set false q s).0 j ≡ update (view s) k (some q) j =
          h.set-view q s j (rw same hk) hj ∙ ap (λ i. update (view s) i (some q) j) same in
        h.delete-view k (r.set false q s).0 j hk hj ∙ elim (Bool-cases (k == j)) [
          | inl e ↦ rw e (sym fresh ∙ ap (λ i. view s i) ((==_iff k j).0 e))
          | inr e ↦ rw e (rw e at before)
        ]

    there : k < 2 ^ 32 → view (r.set false q s).0 k ≡ some q
    there hk =
        h.set-view q s k (rw same hk) hk
        ∙ ap (λ i. update (view s) i (some q) k) same
        ∙ rw ((==_iff k k).1 refl) refl

    size-removed : k < 2 ^ 32 → size (r.delete false k (r.set false q s).0).0 ≡ size s
    size-removed hk =
        let grown : size (r.set false q s).0 ≡ size s + 1 =
          h.set-size q s ∙ rw (same, fresh) refl in
        h.delete-size k (r.set false q s).0 ∙ rw (there hk, grown) (omega arith)

  -- Where OnExpectedPduResponse is set, as it is wherever the loop calls handleWindowPdu: a
  -- request that is written through whole while the window has a place, and whose sequence number
  -- is not in the window, is handed to OnExpectedPduResponse together with the first response of
  -- its sequence number, of one of the types that handleWindowPdu looks up, if the contexts of the
  -- accesses to the store have not ended; then the window holds what it held before, at every
  -- sequence number, and has the same size.
  pub handle_window_pdu-write :
      (settings : Settings) (w : WindowedRequestTracking) (sent : WriteEnv) (env : ReadEnv)
      → (g : Globals) (s : M) (p q : Pdu) → GoesWell sent p
      → is_allow_pdu p ≡ true
      → size s < window_size r settings.windowed_request_tracking
      → get_sequence_number p < 2 ^ 32
      → view s (get_sequence_number p) ≡ none
      → is_window_response q ≡ true
      → get_sequence_number q ≡ get_sequence_number p
      → env.get_ended ≡ false
      → env.delete_ended ≡ false
      → let (s', handled) = handle_window_pdu r w env g (write r settings sent s p).store q in
        (handled ≡ expected g q (remembered r view size h sent p))
        × ((j : ℕ) → j < 2 ^ 32 → view s' j ≡ view s j)
        × (size s' ≡ size s)
  handle_window_pdu-write settings w sent env g s p q well allowed room small fresh window answers
        got deleted =
      let k = get_sequence_number p in
      let request = remembered r view size h sent p in
      let same : get_sequence_number request.pdu ≡ k = get_sequence_number-marshal p in
      let stored : (write r settings sent s p).store ≡ (r.set false request s).0 =
        ap (λ (x : Written M). x.store)
          (write-remembered r view size h settings sent s p well allowed room) in
      let found : view (r.set false request s).0 (get_sequence_number q) ≡ some request =
        rw answers (there request s k same fresh small) in
      rw
        (
          stored,
          handle_window_pdu-expected w env g (r.set false request s).0 q request window got deleted
              found,
          answers,
        )
        (
          refl,
          λ j hj. view-removed request s k same fresh j small hj,
          size-removed request s k same fresh small,
        )
