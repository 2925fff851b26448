-- ===== src/Async/Pending.antt =====
-- The state of an AsyncBus beside its Bus, and the critical sections of its methods: registering a
-- request, settling one, and the sweep of check_timeouts. `none` stands for a std::future_error,
-- which set_value throws on a promise that has its value. Every section is made under
-- pending_mutex_, so it is one step.
pub mod Invariant
pub mod Response
pub mod Timeouts
pub mod Tracks
pub mod History
pub mod Duplicate
pub mod Spec
pub mod Owner
pub mod View
pub mod Refinement
use stdiobus_cpp.Prelude.{
  ℕ, suc, Bool, true, false, Option, none, some, List, [], ◌∷◌, Bytes, codes, ◌==◌, if◌then◌else◌,
  is_empty,
}
use stdiobus_cpp.Prelude.Int.{ℤ, ◌+ℤ◌, leb_ℤ}
use stdiobus_cpp.ErrorCode.{timeout}
use stdiobus_cpp.Error
use stdiobus_cpp.Error.{Error, with_message, is_error}
use stdiobus_cpp.Async.Id.{extract_id, extract_or_inject_id, Identified}
use stdiobus_cpp.Async.Table.{PendingRequest, Table, lookup, erase, put}

pub record AsyncResult : Type 0 where
  pub error : Error
  pub response : Bytes

-- AsyncResult::operator bool
unfoldable pub is_ok : AsyncResult → Bool
unfolding is_error
is_ok r = if is_error r.error then false else true

-- The state that a promise shares with its future. `broken`: the promise went away with no value.
pub data Shared : Type 0 where
  waiting : Shared
  ready : AsyncResult → Shared
  broken : Shared

pub record AsyncState : Type 0 where
  pub next_id : ℕ
  pub pending : Table
  -- The promises made so far are those below next_promise.
  pub promises : ℕ → Shared
  pub next_promise : ℕ

-- promise->set_value(result)
unfoldable pub set_value : (ℕ → Shared) → ℕ → AsyncResult → Option (ℕ → Shared)
set_value promises p result = elim (promises p) [
  | waiting ↦ some (λ q. if p == q then ready result else promises q)
  | ready old ↦ none
  | broken ↦ none
]

-- The destruction of a promise, by its last owner.
unfoldable pub abandon : (ℕ → Shared) → ℕ → ℕ → Shared
abandon promises p = elim (promises p) [
  | waiting ↦ λ q. if p == q then broken else promises q
  | ready old ↦ promises
  | broken ↦ promises
]

-- The owner that an assignment to pending_[id] replaces.
unfoldable pub abandon_old : (ℕ → Shared) → Option PendingRequest → ℕ → Shared
unfolding abandon
abandon_old promises none = promises
abandon_old promises (some old) = abandon promises old.promise

-- request_async up to the send: a new promise, and pending_[id] = PendingRequest{...}.
unfoldable pub register : Bytes → ℤ → AsyncState → AsyncState
unfolding abandon_old put lookup
register id deadline s = record s {
  pending = put id (record { promise = s.next_promise; deadline = deadline }) s.pending;
  promises =
      abandon_old (λ q. if s.next_promise == q then waiting else s.promises q)
        (lookup id s.pending);
  next_promise = suc s.next_promise;
}

-- find(id), set_value and erase.
unfoldable pub settle : Bytes → AsyncResult → AsyncState → Option AsyncState
unfolding lookup erase set_value
settle id result s = elim (lookup id s.pending) [
  | none ↦ some s
  | some r ↦ (elim (set_value s.promises r.promise result) [
    | none ↦ none
    | some promises ↦ some (record s { pending = erase id s.pending; promises = promises })
  ])
]

-- handle_response
unfoldable pub handle_response : Bytes → AsyncState → Option AsyncState
unfolding settle is_empty
handle_response msg s =
    if is_empty (extract_id msg)
    then some s
    else settle (extract_id msg) (record { error = Error.ok; response = msg }) s

-- AsyncResult{Error(ErrorCode::Timeout, "Request timed out"), ""}
abbrev pub timed_out : AsyncResult
timed_out = record { error = with_message timeout (codes "Request timed out"); response = [] }

-- The loop of check_timeouts over the entries from the iterator on.
unfoldable pub sweep : ℤ → Table → (ℕ → Shared) → Option (Table × (ℕ → Shared))
unfolding set_value
sweep now [] promises = some ([], promises)
sweep now ((id, r) ∷ rest) promises = elim (leb_ℤ r.deadline now) [
  | true ↦ (elim (set_value promises r.promise timed_out) [
    | none ↦ none
    | some promises' ↦ sweep now rest promises'
  ])
  | false ↦ (elim (sweep now rest promises) [
    | none ↦ none
    | some (kept, promises') ↦ some ((id, r) ∷ kept, promises')
  ])
]

-- check_timeouts, at the time `now`
unfoldable pub check_timeouts : ℤ → AsyncState → Option AsyncState
unfolding sweep
check_timeouts now s = elim (sweep now s.pending s.promises) [
  | none ↦ none
  | some (pending, promises) ↦ some (record s { pending = pending; promises = promises })
]

-- next_id_(1), and no request.
abbrev pub start : AsyncState
start = record { next_id = 1; pending = []; promises = λ p. waiting; next_promise = 0 }
