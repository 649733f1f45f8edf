-- ===== src/Session/Rebinding/Checks.antt =====
-- Which settings NewSession of session.go accepts.
use gosmpp.Prelude.{
  ℕ, zero, suc, ◌+◌, ◌-◌, ◌<◌, arith, ap, ◌≡◌, ◌≢◌, ◌↔◌, refl, ◌∙◌, sym, Bool, true, false, not,
  ◌&&◌, ◌||◌, List, [], Option, none, some, ◌==◌, if◌then◌else◌,
}
use gosmpp.Globals.{Globals}
use gosmpp.Session.Failure.{Failure}
use gosmpp.Session.Duration.{ℤ, pos, negsuc, is_positive, is_zero, at_most}
use gosmpp.Session.Settings.{Settings, WindowedRequestTracking}
use gosmpp.Session.Connection.{Peer, Connector, Connected, connect_with}
use gosmpp.Session.Rebinding.{
  check_window, check_tracking, check_settings, checked, connected, choose_store, new_session,
}

-- The duration that is `n` longer.
abbrev pub longer : ℤ → ℕ → ℤ
longer (pos m) n = pos (m + n)
longer (negsuc m) zero = negsuc m
longer (negsuc zero) (suc n) = pos n
longer (negsuc (suc m)) (suc n) = longer (negsuc m) n

abbrev pub Exceeds : ℤ → ℤ → Type 0
Exceeds a b = (n : ℕ) × (a ≡ longer b (suc n))

-- A window has places and a limit for the access of its store, and expiry has a timer.
pub record IsTracking (w : WindowedRequestTracking) : Type 0 where
  pub has_places : 0 < w.max_window_size
  pub has_time : w.store_access_time_out ≢ pos 0
  pub has_timer : Exceeds w.pdu_expire_time_out (pos 0) → w.expire_check_timer ≢ pos 0

abbrev pub AllTracking : Option WindowedRequestTracking → Type 0
AllTracking none = Unit
AllTracking (some w) = IsTracking w

-- The read timeout is longer than no time and than the period of enquire_link.
pub record IsValid (settings : Settings) : Type 0 where
  pub reads : Exceeds settings.read_timeout (pos 0)
  pub outlasts : Exceeds settings.read_timeout settings.enquire_link
  pub tracks : AllTracking settings.windowed_request_tracking

longer-negsuc-eq-pos : (m j n : ℕ) → j ≡ suc (m + n) → longer (negsuc m) j ≡ pos n
longer-negsuc-eq-pos zero zero n e = absurd (omega arith)
longer-negsuc-eq-pos zero (suc j) n e = ap pos (omega arith)
longer-negsuc-eq-pos (suc m) zero n e = absurd (omega arith)
longer-negsuc-eq-pos (suc m) (suc j) n e = longer-negsuc-eq-pos m j n (omega arith)

longer-negsuc-eq-negsuc : (j k m : ℕ) → j ≡ k + m → longer (negsuc j) k ≡ negsuc m
longer-negsuc-eq-negsuc j zero m e = ap negsuc (omega arith)
longer-negsuc-eq-negsuc zero (suc k) m e = absurd (omega arith)
longer-negsuc-eq-negsuc (suc j) (suc k) m e = longer-negsuc-eq-negsuc j k m (omega arith)

at_most-longer-negsuc : (m n j : ℕ) → m < j → at_most (longer (negsuc m) n) (negsuc j) ≡ false
at_most-longer-negsuc m zero j h = ground arith
at_most-longer-negsuc zero (suc n) j h = refl
at_most-longer-negsuc (suc m) (suc n) j h = at_most-longer-negsuc m n j (omega arith)

at_most-longer : (b : ℤ) (n : ℕ) → at_most (longer b (suc n)) b ≡ false
at_most-longer (pos m) n = ground arith
at_most-longer (negsuc zero) n = refl
at_most-longer (negsuc (suc m)) n = at_most-longer-negsuc m n (suc m) (omega arith)

at_most-eq-false : (a b : ℤ) → at_most a b ≡ false → Exceeds a b
at_most-eq-false (pos m) (pos n) h =
    let above : n < m = ground arith in (m - n - 1, ap pos (omega arith))
at_most-eq-false (pos m) (negsuc n) h = (n + m, sym (longer-negsuc-eq-pos n (suc (n + m)) m refl))
at_most-eq-false (negsuc m) (pos n) h = cc
at_most-eq-false (negsuc m) (negsuc n) h =
    let above : m < n = ground arith in
    (n - m - 1, sym (longer-negsuc-eq-negsuc n (suc (n - m - 1)) m (omega arith)))

Exceeds_iff : (a b : ℤ) → Exceeds a b ↔ (at_most a b ≡ false)
Exceeds_iff a b = ((λ (n, e). rw e (at_most-longer b n)), at_most-eq-false a b)

is_positive_lem : (a : ℤ) → is_positive a ≡ not (at_most a (pos 0))
is_positive_lem (pos zero) = refl
is_positive_lem (pos (suc n)) = ground arith
is_positive_lem (negsuc n) = refl

is_zero_iff : (a : ℤ) → (is_zero a ≡ false) ↔ (a ≢ pos 0)
is_zero_iff (pos zero) = (λ e. cc, λ h. absurd (h refl))
is_zero_iff (pos (suc n)) = (λ e. λ z. cc, λ h. refl)
is_zero_iff (negsuc n) = (λ e. λ z. cc, λ h. refl)

not_iff : (b : Bool) → (not b ≡ true) ↔ (b ≡ false)
not_iff true = (λ e. cc, λ e. cc)
not_iff false = (λ e. refl, λ e. refl)

is_positive_iff : (a : ℤ) → (is_positive a ≡ true) ↔ Exceeds a (pos 0)
is_positive_iff a = (
  λ e. (Exceeds_iff a (pos 0)).1 ((not_iff (at_most a (pos 0))).0 (sym (is_positive_lem a) ∙ e)),
  λ x. is_positive_lem a ∙ (not_iff (at_most a (pos 0))).1 ((Exceeds_iff a (pos 0)).0 x),
)

none_of :
    (a b c : Bool) (x y z : Failure)
    → (if a then some x else if b then some y else if c then some z else none) ≡ none
    → (a ≡ false) × (b ≡ false) × (c ≡ false)
none_of true b c x y z e = cc
none_of false true c x y z e = cc
none_of false false true x y z e = cc
none_of false false false x y z e = (refl, refl, refl)

needed : (a b : Bool) → (a && b) ≡ false → a ≡ true → b ≡ false
needed true b e t = e
needed false b e t = cc

not_both : (a b : Bool) → (a ≡ true → b ≡ false) → (a && b) ≡ false
not_both true b h = h refl
not_both false b h = refl

neither : (a b : Bool) → (not a || b) ≡ false → (a ≡ true) × (b ≡ false)
neither true b e = (refl, e)
neither false b e = cc

check_window-IsTracking : (w : WindowedRequestTracking) → check_window w ≡ none → IsTracking w
unfolding check_window
check_window-IsTracking w e =
    let (places, time, timer) =
      none_of (w.max_window_size == 0) (is_zero w.store_access_time_out)
        (is_positive w.pdu_expire_time_out && is_zero w.expire_check_timer) _ _ _ e in
    record {
      has_places = ground arith;
      has_time = (is_zero_iff w.store_access_time_out).0 time;
      has_timer = λ expires. (is_zero_iff w.expire_check_timer).0 (
          needed (is_positive w.pdu_expire_time_out) (is_zero w.expire_check_timer) timer
            ((is_positive_iff w.pdu_expire_time_out).1 expires));
    }

IsTracking-check_window : (w : WindowedRequestTracking) → IsTracking w → check_window w ≡ none
unfolding check_window
IsTracking-check_window w h =
    let has_places : (w.max_window_size == 0) ≡ false = ground (arith, h.has_places) in
    rw
      (
        has_places,
        (is_zero_iff w.store_access_time_out).1 h.has_time,
        not_both (is_positive w.pdu_expire_time_out) (is_zero w.expire_check_timer) (λ expires.
            (is_zero_iff w.expire_check_timer).1
              (h.has_timer ((is_positive_iff w.pdu_expire_time_out).0 expires))),
      )
      refl

tracking_iff : (o : Option WindowedRequestTracking) → (check_tracking o ≡ none) ↔ AllTracking o
unfolding check_tracking
tracking_iff none = ((λ e. tt), λ h. refl)
tracking_iff (some w) = (check_window-IsTracking w, IsTracking-check_window w)

invalid_or :
    (b : Bool) (x : Failure) (o : Option Failure)
    → (if b then some x else o) ≡ none
    → (b ≡ false) × (o ≡ none)
invalid_or true x o e = cc
invalid_or false x o e = (refl, e)

pub check_settings_iff : (settings : Settings) → (check_settings settings ≡ none) ↔ IsValid settings
unfolding check_settings
check_settings_iff settings = (
  λ e.
      let (times, tracks) =
        invalid_or
          (not (is_positive settings.read_timeout)
            || at_most settings.read_timeout settings.enquire_link)
          _ (check_tracking settings.windowed_request_tracking) e in
      let (reads, outlasts) =
        neither (is_positive settings.read_timeout)
          (at_most settings.read_timeout settings.enquire_link) times in
      record {
        reads = (is_positive_iff settings.read_timeout).0 reads;
        outlasts = (Exceeds_iff settings.read_timeout settings.enquire_link).1 outlasts;
        tracks = (tracking_iff settings.windowed_request_tracking).0 tracks;
      },
  λ h.
      rw
        (
          (is_positive_iff settings.read_timeout).1 h.reads,
          (Exceeds_iff settings.read_timeout settings.enquire_link).0 h.outlasts,
        )
        ((tracking_iff settings.windowed_request_tracking).1 h.tracks),
)

module _ {ℓ} {M : Type ℓ} where
  connected_err :
      (settings : Settings) (rebinding_interval : ℤ) (c : Connector) (s : M) (conn : Connected)
      → (e : Option Failure) → (connected settings rebinding_interval c s conn e).err ≡ e
  unfolding connected
  connected_err settings rebinding_interval c s conn none = refl
  connected_err settings rebinding_interval c s conn (some e) = refl

  -- Settings that are not accepted end NewSession before anything is sent.
  pub new_session-refuses :
      (g : Globals) (peer : Peer) (c : Connector) (settings : Settings) (rebinding_interval : ℤ)
      → (s : M) (opts : List M) (e : Failure) → check_settings settings ≡ some e
      → new_session g peer c settings rebinding_interval s opts
        ≡ record { session = none; err = some e; sent = []; globals = g }
  unfolding new_session checked
  new_session-refuses g peer c settings rebinding_interval s opts e refused = rw refused refl

  pub new_session-accepts :
      (g : Globals) (peer : Peer) (c : Connector) (settings : Settings) (rebinding_interval : ℤ)
      → (s : M) (opts : List M) → check_settings settings ≡ none
      → (new_session g peer c settings rebinding_interval s opts).err ≡ (connect_with g peer c).err
  unfolding new_session checked
  new_session-accepts g peer c settings rebinding_interval s opts fine = rw fine (
      connected_err settings rebinding_interval c (choose_store s opts) (connect_with g peer c)
        (connect_with g peer c).err)

  -- NewSession ends without an error exactly if its connector connects without one and its
  -- settings are such that, as signed durations, ReadTimeout is longer than zero and than
  -- EnquireLink and, if requests are tracked, the window is not empty, the time to access the
  -- store is not zero, and the timer of the expiry is not zero if the time to expire is positive.
  pub new_session_iff :
      (g : Globals) (peer : Peer) (c : Connector) (settings : Settings) (rebinding_interval : ℤ)
      → (s : M) (opts : List M)
      → ((new_session g peer c settings rebinding_interval s opts).err ≡ none)
        ↔ (IsValid settings × ((connect_with g peer c).err ≡ none))
  new_session_iff g peer c settings rebinding_interval s opts = go (check_settings settings) refl
    where
      go :
          (o : Option Failure)
          → check_settings settings ≡ o
          → ((new_session g peer c settings rebinding_interval s opts).err ≡ none)
            ↔ (IsValid settings × ((connect_with g peer c).err ≡ none))
      go none fine =
          let same = new_session-accepts g peer c settings rebinding_interval s opts fine in
          (λ e. ((check_settings_iff settings).0 fine, sym same ∙ e), λ (valid, e). same ∙ e)
      go (some x) refused =
          let ended = new_session-refuses g peer c settings rebinding_interval s opts x refused in
          (λ e. cc (e, ended), λ (valid, e). cc (refused, (check_settings_iff settings).1 valid))
