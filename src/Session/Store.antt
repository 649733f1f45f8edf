-- ===== src/Session/Store.antt =====
-- The window of requests: RequestStore and DefaultStore of request_store.go over a concurrent map of
-- github.com/orcaman/concurrent-map, whose operations and laws are parameters.
pub mod Refinement
pub mod Concrete
use gosmpp.Prelude.{ℕ, Bool, List, [], map, Option, none, some, if◌then◌else◌}
use gosmpp.Outcome.{Bytes}
use gosmpp.Packet.{Pdu, get_sequence_number}
use gosmpp.Session.Failure.{Failure, context_ended}
use gosmpp.Session.Decimal.{itoa}

pub record Request : Type 0 where
  pub pdu : Pdu
  pub time_sent : ℕ

-- cmap.ConcurrentMap[string, Request]: the operations that DefaultStore calls. `items` is Items().
pub record ConcurrentMap {ℓ} (M : Type ℓ) : Type ℓ where
  pub set : Bytes → Request → M → M
  pub get : Bytes → M → Option Request
  pub remove : Bytes → M → M
  pub clear : M → M
  pub items : M → List (Bytes × Request)
  pub count : M → ℕ

-- The interface RequestStore. The first argument of an operation tells whether its context has ended;
-- a get with no result is `none`.
pub record RequestStore {ℓ} (M : Type ℓ) : Type ℓ where
  pub set : Bool → Request → M → M × Option Failure
  pub get : Bool → ℕ → M → Option Request
  pub list : Bool → M → List Request
  pub delete : Bool → ℕ → M → M × Option Failure
  pub clear : Bool → M → M × Option Failure
  pub length : Bool → M → ℕ × Option Failure

module _ {ℓ} {M : Type ℓ} (m : ConcurrentMap M) where
  unfoldable pub store_set : Bool → Request → M → M × Option Failure
  store_set done request s =
      if done
      then (s, some context_ended)
      else (m.set (itoa (get_sequence_number request.pdu)) request s, none)

  unfoldable pub store_get : Bool → ℕ → M → Option Request
  store_get done sequence_number s = if done then none else m.get (itoa sequence_number) s

  unfoldable pub store_list : Bool → M → List Request
  store_list done s = if done then [] else map (λ (e : Bytes × Request). e.1) (m.items s)

  unfoldable pub store_delete : Bool → ℕ → M → M × Option Failure
  store_delete done sequence_number s =
      if done then (s, some context_ended) else (m.remove (itoa sequence_number) s, none)

  unfoldable pub store_clear : Bool → M → M × Option Failure
  store_clear done s = if done then (s, some context_ended) else (m.clear s, none)

  unfoldable pub store_length : Bool → M → ℕ × Option Failure
  store_length done s = if done then (0, some context_ended) else (m.count s, none)

  -- DefaultStore
  abbrev pub default_store : RequestStore M
  default_store = record {
    set = store_set;
    get = store_get;
    list = store_list;
    delete = store_delete;
    clear = store_clear;
    length = store_length;
  }
