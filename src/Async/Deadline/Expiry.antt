-- ===== src/Async/Deadline/Expiry.antt =====
-- When a request with a timeout in milliseconds times out.
use stdiobus_cpp.Prelude.{
  ℕ, ◌+◌, ◌*◌, ◌^◌, ◌<◌, ◌≡◌, refl, none, some, [], ◌∷◌, Bytes, arith, leb, ltb, if◌then◌else◌,
  Option-cases, inl, inr,
}
use stdiobus_cpp.Prelude.Int.{ℤ, pos, leb_ℤ, ◌+ℤ◌, scale}
use stdiobus_cpp.Async.Table.{PendingRequest, Table, put, lookup, holders}
use stdiobus_cpp.Async.Table.Laws.{holders-pos_of_lookup}
use stdiobus_cpp.Prelude.{codes, []}
use stdiobus_cpp.Error.{with_message}
use stdiobus_cpp.ErrorCode
use stdiobus_cpp.Async.Pending.{
  AsyncState, waiting, ready, register, check_timeouts, abandon_old, abandon,
}
use stdiobus_cpp.Async.Pending.Invariant.{IsValid, register-IsValid}
use stdiobus_cpp.Async.Pending.Timeouts.{is_due, is_due-held, check_timeouts_lem}
use stdiobus_cpp.Async.Deadline.{checked, deadline_at, register_for}

deadline_at-pos :
    (now timeout : ℕ)
    → deadline_at (pos now) (pos timeout) ≡ (
        if ltb (now + timeout * 1000000) (2 ^ 63)
        then some (pos (now + timeout * 1000000))
        else none)
unfolding deadline_at checked scale ◌+ℤ◌
deadline_at-pos now timeout = ground arith

fitting :
    (now timeout : ℕ)
    → now + timeout * 1000000 < 2 ^ 63
    → deadline_at (pos now) (pos timeout) ≡ some (pos (now + timeout * 1000000))
fitting now timeout h = ground (arith, deadline_at-pos now timeout)

-- A promise that no entry holds is due exactly if its own entry is.
is_due-put :
    (now : ℤ) (id : Bytes) (r : PendingRequest) (t : Table)
    → holders r.promise t ≡ 0
    → is_due now (put id r t) r.promise ≡ leb_ℤ r.deadline now
unfolding is_due put holders
is_due-put now id r [] h = ground arith
is_due-put now id r ((key, old) ∷ t) h =
    ground (arith, is_due-put now id r t, is_due-held now t r.promise)

leb_ℤ-pos : (a b : ℕ) → leb_ℤ (pos a) (pos b) ≡ leb a b
leb_ℤ-pos a b = ground arith

unheld : (s : AsyncState) → IsValid s → holders s.next_promise s.pending ≡ 0
unheld s v = ground (arith, v.held s.next_promise)

register_waits :
    (id : Bytes) (deadline : ℤ) (s : AsyncState)
    → IsValid s
    → (register id deadline s).promises s.next_promise ≡ waiting
unfolding register abandon_old abandon
register_waits id deadline s v = elim (Option-cases (lookup id s.pending)) [
  | inl e ↦ ground (arith, e)
  | inr (r, e) ↦ ground (arith, e, unheld s v, holders-pos_of_lookup id s.pending r e)
]

-- A request that is made at `now` with a timeout in milliseconds, where the sum does not overflow:
-- check_timeouts gives its future the timeout error exactly when the timeout has passed, to the
-- nanosecond, and leaves it waiting before.
pub register_for-check_timeouts :
    (id : Bytes) (now timeout later : ℕ) (s : AsyncState)
    → IsValid s
    → now + timeout * 1000000 < 2 ^ 63
    → (s1 s2 : AsyncState) × (register_for id (pos now) (pos timeout) s ≡ some s1)
      × (check_timeouts (pos later) s1 ≡ some s2)
      × (s2.promises s.next_promise ≡ (
          if leb (now + timeout * 1000000) later
          then ready (record {
            error = with_message ErrorCode.timeout (codes "Request timed out");
            response = [];
          })
          else waiting))
unfolding register_for register abandon_old
register_for-check_timeouts id now timeout later s v fits =
    let deadline = pos (now + timeout * 1000000) in
    let s1 : AsyncState = register id deadline s in
    let (s2, eq, kept, next, at, v2) =
      check_timeouts_lem (pos later) s1 (register-IsValid id deadline v) in
    (
      s1,
      s2,
      rw (register_for, fitting now timeout fits) refl,
      eq,
      rw
          (
            at s.next_promise,
            is_due-put (pos later) id (record { promise = s.next_promise; deadline = deadline })
                s.pending (unheld s v),
            register_waits id deadline s v,
            leb_ℤ-pos (now + timeout * 1000000) later,
          )
          refl,
    )
