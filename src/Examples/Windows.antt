-- ===== src/Examples/Windows.antt =====
-- A session with a window of two requests, and one without a window, over DefaultStore.
use gosmpp.Prelude.{
  ℕ, ◌^◌, ◌<◌, ◌≤◌, ◌≡◌, refl, ap, ◌∙◌, sym, arith, true, false, Bool-cases, inl, inr, List, [],
  ◌∷◌, Option, none, some, length, if◌then◌else◌, take,
}
use gosmpp.Packet.{Pdu, get_sequence_number}
use gosmpp.Wire.{marshal}
use gosmpp.Response.{can_response, get_response}
use gosmpp.Response.Answers.{Answers}
use gosmpp.Response.Replies.{get_response-Answers}
use gosmpp.Examples.Data.{globals, packet}
use gosmpp.Examples.Frames.{typed, sendable, packet_size, can, response}
use gosmpp.Session.Failure.{Failure, network}
use gosmpp.Session.Duration.{pos}
use gosmpp.Session.Decimal.{itoa, itoa-injective}
use gosmpp.Session.Settings.{Settings, WindowedRequestTracking}
use gosmpp.Session.Store.{Request, RequestStore, default_store, store_list}
use gosmpp.Session.Store.Refinement.{IsStore, default_store-IsStore}
use gosmpp.Session.Store.Concrete.{
  Table, empty_table, association_map, association_map-IsConcurrentMap, same, same-eq, same_refl,
}
use gosmpp.Session.Transmitter
use gosmpp.Session.Transmitter.{WriteEnv, Input, received, write, window_size, is_allow_pdu, check}
use gosmpp.Session.Transmitter.Window.{GoesWell, remembered, loop_bounded}
use gosmpp.Session.Transmitter.Order.{queued, pdus, write_partial}
use gosmpp.Session.Receiver
use gosmpp.Session.Receiver.{ReadEnv, is_window_response, handle_window_pdu, handle_or_close}
use gosmpp.Session.Receiver.Replies.{responses, handle_or_close-Answers}
use gosmpp.Session.Receiver.Matching.{
  expected, handle_window_pdu-write, is_window_response-is_allow_pdu,
}
use gosmpp.Session.Receiver.Stream.{IsReadable, deliver, loop-loop}
use gosmpp.Session.Transceiver
use gosmpp.Session.Transceiver.{
  Transceiver, Outside, output, new_transceivable, close_half, window_cleanup,
}
use gosmpp.Session.Settings.{connection_issue}
use gosmpp.Session.Transceiver.Ends.{ClosedOnce, close_half-ClosedOnce, close-ClosedOnce}
use gosmpp.Session.Transceiver.Expiry.{IsAmong, IsListed, unexpired, window_cleanup-unexpired}

abbrev pub store : RequestStore Table
store = default_store association_map

abbrev view : Table → ℕ → Option Request
view s k = association_map.get (itoa k) s

abbrev size : Table → ℕ
size = association_map.count

stored : IsStore store view size
stored = default_store-IsStore association_map association_map-IsConcurrentMap

default_store-IsStore_example :
    IsStore
      (default_store association_map)
      (λ s k. association_map.get (itoa k) s)
      association_map.count
default_store-IsStore_example =
    default_store-IsStore association_map association_map-IsConcurrentMap

abbrev window : WindowedRequestTracking
window = record {
  on_received_pdu_request = none;
  on_expected_pdu_response = true;
  on_unexpected_pdu_response = true;
  on_expired_pdu_request = none;
  on_close_pdu_request = true;
  pdu_expire_time_out = pos 30;
  expire_check_timer = pos 10;
  max_window_size = 2;
  enable_auto_respond = true;
  store_access_time_out = pos 500;
}

abbrev tracking : Option WindowedRequestTracking → Settings
tracking w = record {
  read_timeout = pos 20;
  write_timeout = pos 5;
  enquire_link = pos 10;
  on_pdu = true;
  on_all_pdu = none;
  on_receiving_error = true;
  on_submit_error = true;
  on_rebinding_error = true;
  on_closed = true;
  on_rebind = true;
  windowed_request_tracking = w;
}

abbrev pub windowed : Settings
windowed = tracking (some window)

abbrev pub plain : Settings
plain = tracking none

abbrev writes_with : ℕ × Option Failure → WriteEnv
writes_with wrote = record {
  timeout_set = none;
  length_ended = false;
  wrote = wrote;
  set_ended = false;
  now = 3;
}

abbrev sent : WriteEnv
sent = writes_with (length (marshal packet).1, none)

goes_well : GoesWell sent packet
goes_well = record { deadline = refl; counted = refl; whole = refl; kept = refl }

allowed : is_allow_pdu packet ≡ true
unfolding is_allow_pdu can_response
allowed = refl

abbrev inputs : List (Input × WriteEnv)
inputs = (received (some packet), sent) ∷ (received (some packet), sent) ∷ []

loop_bounded_example :
    size (Transmitter.loop store windowed globals empty_table inputs).store
    ≤ window_size store windowed.windowed_request_tracking
loop_bounded_example =
    loop_bounded store view size stored windowed globals empty_table inputs (omega arith)

-- The window with the packet in it, its key as the store spells it.
abbrev waiting : Request
waiting = record { pdu = packet; time_sent = 3 }

abbrev one_waiting : Table
one_waiting = ((itoa 42, waiting) ∷ [], (refl, tt))

abbrev narrow : Settings
narrow = tracking (some (record window { max_window_size = 1 }))

abbrev partial : WriteEnv
partial = writes_with (3, some (network false))

write_partial_example :
    let w = write store windowed partial empty_table packet in
    (w ≡ record {
      pdu = (marshal packet).0;
      n = 0;
      err = some (network false);
      store = empty_table;
      bytes = take 3 (marshal packet).1;
    })
    × ((check windowed w.pdu w.n w.err).0 ≡ false)
unfolding is_allow_pdu
write_partial_example =
    write_partial store view size stored windowed partial empty_table packet 3 refl refl refl
      (omega arith) (λ e. omega arith)

abbrev reads : ReadEnv
reads = record { cancelled = false; deadline = none; get_ended = false; delete_ended = false }

answers : get_sequence_number response ≡ get_sequence_number packet
unfolding get_sequence_number
answers = refl

frees : is_window_response response ≡ true
unfolding is_window_response
frees = refl

small : get_sequence_number packet < 2 ^ 32
unfolding get_sequence_number
small = omega arith

handle_window_pdu-write_example :
    let (s', handled) =
      handle_window_pdu store window reads globals
        (write store windowed sent empty_table packet).store
        response in
    (handled
      ≡ expected store view size stored globals response
          (remembered store view size stored sent packet))
    × ((j : ℕ) → j < 2 ^ 32 → view s' j ≡ view empty_table j)
    × (size s' ≡ size empty_table)
handle_window_pdu-write_example =
    handle_window_pdu-write store view size stored windowed window sent reads globals empty_table
      packet response goes_well allowed (omega arith) small refl frees answers refl refl

abbrev replied : (r : Pdu) × ((get_response globals packet).0 ≡ some r) × Answers r packet
replied = get_response-Answers globals packet typed can

is_window_response-is_allow_pdu_example : is_window_response replied.0 ≡ is_allow_pdu packet
is_window_response-is_allow_pdu_example =
    is_window_response-is_allow_pdu globals packet replied.0 replied.1

handle_or_close-Answers_example :
    (r : Pdu) × (responses (handle_or_close plain globals packet).events ≡ some r ∷ [])
    × Answers r packet
handle_or_close-Answers_example = handle_or_close-Answers plain globals packet typed can

pub readable : IsReadable packet
readable = record { typed = typed; sendable = sendable; short = omega (arith, packet_size) }

loop-loop_example :
    Receiver.loop store plain
      (reads ∷ [])
      globals
      empty_table
      (Transmitter.loop store plain globals empty_table (queued ((packet, sent) ∷ []))).bytes
    ≡ deliver store plain (reads ∷ []) globals empty_table (pdus ((packet, sent) ∷ []))
loop-loop_example =
    loop-loop store plain plain globals empty_table ((packet, sent) ∷ []) (reads ∷ []) globals
      empty_table refl (goes_well, tt) (readable, tt)
      (record { going_on = refl; deadline_set = refl }, tt)

abbrev pub outside : Outside
outside = record {
  out_close = record {
    unbind = writes_with (16, none);
    conn_closed = none;
    length_ended = false;
    list_ended = false;
    delete_ended = λ k. false;
  };
  in_conn_closed = none;
  conn_closed = none;
}

abbrev pub bound : Transceiver Table
bound = new_transceivable globals one_waiting

close_half-ClosedOnce_example :
    ClosedOnce store windowed outside bound
      (close_half store windowed outside 2 output connection_issue bound)
unfolding new_transceivable
close_half-ClosedOnce_example =
    close_half-ClosedOnce store windowed outside output connection_issue bound refl refl

close-ClosedOnce_example :
    ClosedOnce store windowed outside bound (Transceiver.close store windowed outside bound).0
    × ((Transceiver.close store windowed outside bound).1 ≡ none)
unfolding new_transceivable
close-ClosedOnce_example = close-ClosedOnce store windowed outside bound refl

abbrev content : Option Request → Request
content none = waiting
content (some q) = q

listed_at :
    (k : ℕ) (q : Request)
    → k < 2 ^ 32
    → (if same (itoa 42) (itoa k) then some waiting else none) ≡ some q
    → (waiting ≡ q) × (42 ≡ k)
listed_at k q hk e = elim (Bool-cases (same (itoa 42) (itoa k))) [
  | inl s ↦
      (ap content (rw s at e), itoa-injective 42 k (omega arith) hk (same-eq (itoa 42) (itoa k) s))
  | inr s ↦ cc (rw s at e)
]

numbered : get_sequence_number packet ≡ 42
unfolding get_sequence_number
numbered = refl

one-IsListed : IsListed store view size stored windowed outside one_waiting
unfolding store_list
one-IsListed = record {
  complete = λ k q hk e.
      let (here, at_k) = listed_at k q hk e in
      (inl here, ap (λ (x : Request). get_sequence_number x.pdu) (sym here) ∙ numbered ∙ at_k);
  sound = one_sound;
}
  where
    one_sound :
        (q : Request)
        → IsAmong q (waiting ∷ [])
        → (get_sequence_number q.pdu < 2 ^ 32)
          × (view one_waiting (get_sequence_number q.pdu) ≡ some q)
    one_sound q (inl e) = rw⁻¹ e (small, rw numbered (rw (same_refl (itoa 42)) refl))
    one_sound q (inr e) = absurd e

window_cleanup-unexpired_example :
    view (window_cleanup store windowed outside window 40 false (λ k. false) bound).store 42
    ≡ unexpired store view size stored windowed outside window 40 (view bound.store 42)
unfolding new_transceivable
window_cleanup-unexpired_example =
    window_cleanup-unexpired store view size stored windowed outside window 40 (λ k. false) bound 42
      tt (λ j. refl) one-IsListed (omega arith)
