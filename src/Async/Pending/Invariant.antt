-- ===== src/Async/Pending/Invariant.antt =====
-- The invariant of the pending requests, for registering and settling one.
use stdiobus_cpp.Prelude.{
  ℕ, suc, ◌≡◌, ◌⊎◌, inl, inr, Bool, true, false, ◌&&◌, none, some, Bytes, arith, ◌==◌, ltb,
  if◌then◌else◌, Option-cases,
}
use stdiobus_cpp.Prelude.Int.{ℤ}
use stdiobus_cpp.Async.Table.{PendingRequest, lookup, erase, holders}
use stdiobus_cpp.Async.Table.Laws.{
  Distinct, holders-erase, holders-put, put-Distinct, erase-Distinct, holders-pos_of_lookup,
}
use stdiobus_cpp.Async.Pending.{
  AsyncResult, AsyncState, Shared, waiting, ready, abandon_old, register, settle, start,
}

abbrev pub is_waiting : Shared → Bool
is_waiting waiting = true
is_waiting _ = false

-- A promise is held by one entry if it has been made and waits, and by none otherwise.
pub record IsValid (s : AsyncState) : Type 0 where
  pub distinct : Distinct s.pending
  pub held :
      (p : ℕ)
      → holders p s.pending ≡ (if ltb p s.next_promise && is_waiting (s.promises p) then 1 else 0)

pub start-IsValid : IsValid start
unfolding holders
start-IsValid = record { distinct = tt; held = λ p. ground arith }

register-held :
    (id : Bytes) (deadline : ℤ) (s : AsyncState) (p : ℕ)
    → IsValid s
    → (lookup id s.pending ≡ none) ⊎ ((r : PendingRequest) × (lookup id s.pending ≡ some r))
    → holders p (register id deadline s).pending ≡ (
        if ltb p (suc s.next_promise) && is_waiting ((register id deadline s).promises p)
        then 1
        else 0)
unfolding register
register-held id deadline s p v (inl e) = ground (
  arith,
  v.held p,
  holders-put p id (record { promise = s.next_promise; deadline = deadline }) s.pending,
)
register-held id deadline s p v (inr (r, e)) = ground (
  arith,
  v.held p,
  v.held r.promise,
  holders-pos_of_lookup id s.pending r e,
  holders-put p id (record { promise = s.next_promise; deadline = deadline }) s.pending,
)

-- Registering a request keeps the invariant, also where the id is already pending.
pub register-IsValid :
    (id : Bytes) (deadline : ℤ) {s : AsyncState} → IsValid s → IsValid (register id deadline s)
unfolding register abandon_old
register-IsValid id deadline {s} v = record {
  distinct = put-Distinct id _ s.pending v.distinct;
  held = λ p. register-held id deadline s p v (Option-cases (lookup id s.pending));
}

-- The state after the request `r` with the id `id` was settled.
abbrev pub settled : Bytes → AsyncResult → AsyncState → PendingRequest → AsyncState
settled id result s r = record s {
  pending = erase id s.pending;
  promises = λ q. if r.promise == q then ready result else s.promises q;
}

pub settle-eq :
    (id : Bytes) (result : AsyncResult) (s : AsyncState) (r : PendingRequest)
    → IsValid s
    → lookup id s.pending ≡ some r
    → settle id result s ≡ some (settled id result s r)
unfolding settle
settle-eq id result s r v e =
    ground (arith, v.held r.promise, holders-pos_of_lookup id s.pending r e)

-- Settling a request finds its promise unset, and keeps the invariant.
pub settle-IsValid :
    (id : Bytes) (result : AsyncResult) (s : AsyncState)
    → IsValid s
    → (s' : AsyncState) × (settle id result s ≡ some s') × IsValid s'
unfolding settle
settle-IsValid id result s v = elim (Option-cases (lookup id s.pending)) [
  | inl e ↦ (s, ground arith, v)
  | inr (r, e) ↦ (
    settled id result s r,
    settle-eq id result s r v e,
    record {
      distinct = erase-Distinct id s.pending v.distinct;
      held = λ p. ground (
        arith,
        v.held p,
        v.held r.promise,
        holders-pos_of_lookup id s.pending r e,
        holders-erase p id s.pending,
      );
    },
  )
]
