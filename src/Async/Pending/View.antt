-- ===== src/Async/Pending/View.antt =====
-- The futures of an AsyncBus as the specification sees them, and each of them after a critical
-- section.
use stdiobus_cpp.Prelude.{
  ℕ, ◌≤◌, ◌≡◌, fun_ext, none, some, Bytes, arith, ltb, if◌then◌else◌, inl, inr,
}
use stdiobus_cpp.Prelude.Int.{ℤ}
use stdiobus_cpp.Async.Table.{PendingRequest, lookup, holders}
use stdiobus_cpp.Async.Table.Laws.{bytes_eq_iff, holders-pos_of_lookup}
use stdiobus_cpp.Async.Pending.{
  AsyncResult, AsyncState, Shared, waiting, ready, broken, register, abandon_old, timed_out,
}
use stdiobus_cpp.Async.Pending.Invariant.{IsValid, settled}
use stdiobus_cpp.Async.Pending.Timeouts.{live, is_due}
use stdiobus_cpp.Async.Pending.Owner.{
  owner, owner-lookup, owner_of_lookup, owner-erase, owner-put, owner-live, owner-cases,
  is_due-owner,
}
use stdiobus_cpp.Async.Pending.Spec.{Future, unmade, done, lost, Futures, answer, expire, ask}

-- A promise with its entry in the table, as a future of the specification.
abbrev pub future_of : Shared → Future → Future
future_of waiting f = f
future_of (ready result) f = done result
future_of broken f = lost

-- What the futures of an AsyncBus are: the order of the table is forgotten.
abbrev pub view : AsyncState → Futures
view s = record {
  at = λ p. if ltb p s.next_promise then future_of (s.promises p) (owner p s.pending) else unmade;
  made = s.next_promise;
  next_id = s.next_id;
}

pub held_once : (s : AsyncState) → IsValid s → (p : ℕ) → holders p s.pending ≤ 1
held_once s v p = ground (arith, v.held p)

pub register-at_free :
    (id : Bytes) (deadline : ℤ) (s : AsyncState) (p : ℕ)
    → IsValid s
    → lookup id s.pending ≡ none
    → (view (register id deadline s)).at p ≡ (ask id deadline (view s)).at p
unfolding register abandon_old
register-at_free id deadline s p v e =
    let put =
      owner-put p id (record { promise = s.next_promise; deadline = deadline }) s.pending v.distinct
        (held_once s v p) in
    elim (owner-cases p s.pending) [
      | inl f ↦ ground (arith, f, v.held p, put)
      | inr (key, d, f) ↦ ground (
        arith,
        f,
        owner-lookup p key d s.pending v.distinct f,
        bytes_eq_iff id key,
        v.held p,
        put,
      )
    ]

pub register-at_taken :
    (id : Bytes) (deadline : ℤ) (s : AsyncState) (old : PendingRequest) (p : ℕ)
    → IsValid s
    → lookup id s.pending ≡ some old
    → (view (register id deadline s)).at p ≡ (ask id deadline (view s)).at p
unfolding register abandon_old
register-at_taken id deadline s old p v e =
    let put =
      owner-put p id (record { promise = s.next_promise; deadline = deadline }) s.pending v.distinct
        (held_once s v p) in
    let held = owner_of_lookup id old s.pending (held_once s v old.promise) e in
    let pos = holders-pos_of_lookup id s.pending old e in
    elim (owner-cases p s.pending) [
      | inl f ↦ ground (arith, f, v.held p, v.held old.promise, put, held, pos)
      | inr (key, d, f) ↦ ground (
        arith,
        f,
        owner-lookup p key d s.pending v.distinct f,
        bytes_eq_iff id key,
        v.held p,
        v.held old.promise,
        put,
        held,
        pos,
      )
    ]

-- The view is the specification's futures when it is so at each future.
pub view_ext :
    (s : AsyncState) (v : Futures)
    → s.next_promise ≡ v.made
    → s.next_id ≡ v.next_id
    → ((p : ℕ) → (view s).at p ≡ v.at p)
    → view s ≡ v
view_ext s v m n at = λ i. record { at = fun_ext at i; made = m i; next_id = n i }

pub settle-at_found :
    (id : Bytes) (result : AsyncResult) (s : AsyncState) (r : PendingRequest) (p : ℕ)
    → IsValid s
    → lookup id s.pending ≡ some r
    → (view (settled id result s r)).at p ≡ answer id result ((view s).at p)
settle-at_found id result s r p v e =
    let erase = owner-erase p id s.pending v.distinct (held_once s v p) in
    let held = owner_of_lookup id r s.pending (held_once s v r.promise) e in
    let pos = holders-pos_of_lookup id s.pending r e in
    elim (owner-cases p s.pending) [
      | inl f ↦ ground (arith, f, v.held p, v.held r.promise, erase, held)
      | inr (key, d, f) ↦ ground (
        arith,
        f,
        owner-lookup p key d s.pending v.distinct f,
        bytes_eq_iff id key,
        v.held p,
        erase,
        held,
        pos,
      )
    ]

pub settle-at_missing :
    (id : Bytes) (result : AsyncResult) (s : AsyncState) (p : ℕ)
    → IsValid s
    → lookup id s.pending ≡ none
    → (view s).at p ≡ answer id result ((view s).at p)
settle-at_missing id result s p v e = elim (owner-cases p s.pending) [
  | inl f ↦ ground (arith, f, v.held p)
  | inr (key, d, f) ↦
      ground (arith, f, owner-lookup p key d s.pending v.distinct f, bytes_eq_iff id key)
]

pub tick-at :
    (now : ℤ) (s : AsyncState) (p : ℕ) (shared : Shared)
    → IsValid s
    → shared ≡ (if is_due now s.pending p then ready timed_out else s.promises p)
    → (if ltb p s.next_promise then future_of shared (owner p (live now s.pending)) else unmade)
      ≡ expire now ((view s).at p)
tick-at now s p shared v e =
    let due = is_due-owner now p s.pending (held_once s v p) in
    let rest = owner-live now p s.pending (held_once s v p) in
    elim (owner-cases p s.pending) [
      | inl f ↦ ground (arith, f, v.held p, due, rest)
      | inr (key, d, f) ↦
          let pos =
            holders-pos_of_lookup key s.pending _ (owner-lookup p key d s.pending v.distinct f) in
          ground (arith, f, v.held p, due, rest, pos)
    ]
