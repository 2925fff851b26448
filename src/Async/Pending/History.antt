-- ===== src/Async/Pending/History.antt =====
-- Histories of an AsyncBus: the critical sections of its methods in any order, as the threads of a
-- program may interleave them.
use stdiobus_cpp.Prelude.{
  ℕ, ◌<◌, ◌≡◌, ◌⊎◌, subst, refl, true, false, Option, none, some, List, [], ◌∷◌, Bytes, arith,
  if◌then◌else◌, Option-cases, Bool-cases, inl, inr, All, some-injective, sym, ◌∙◌, is_empty,
}
use stdiobus_cpp.Prelude.Int.{ℤ, leb_ℤ}
use stdiobus_cpp.Async.Id.{extract_id, extract_or_inject_id}
use stdiobus_cpp.Async.Table.{PendingRequest, Table, lookup, holders}
use stdiobus_cpp.Async.Table.Laws.{holders-pos_of_lookup}
use stdiobus_cpp.Prelude.{codes, []}
use stdiobus_cpp.Error.{with_message}
use stdiobus_cpp.ErrorCode
use stdiobus_cpp.Async.Pending.{
  AsyncResult, AsyncState, ready, register, settle, handle_response, check_timeouts, abandon_old,
}
use stdiobus_cpp.Async.Pending.Invariant.{
  IsValid, is_waiting, register-IsValid, settle-IsValid, settle-eq, settled,
}
use stdiobus_cpp.Async.Pending.Timeouts.{check_timeouts_lem, live, is_due, is_due-held}

-- One critical section: request_async up to its send, its end after a refused send, handle_response,
-- and check_timeouts.
pub data Event : Type 0 where
  request : Bytes → ℤ → Event
  refused : Bytes → AsyncResult → Event
  response : Bytes → Event
  tick : ℤ → Event

unfoldable pub apply : Event → AsyncState → Option AsyncState
unfolding register settle handle_response check_timeouts extract_or_inject_id
apply (request json deadline) s =
    let x = extract_or_inject_id json s.next_id in
    some (register x.id deadline (record s { next_id = x.next_id }))
apply (refused id result) s = settle id result s
apply (response msg) s = handle_response msg s
apply (tick now) s = check_timeouts now s

unfoldable pub run : List Event → AsyncState → Option AsyncState
unfolding apply
run [] s = some s
run (e ∷ es) s = elim (apply e s) [ none ↦ none | some s' ↦ run es s' ]

renumbered : (n : ℕ) {s : AsyncState} → IsValid s → IsValid (record s { next_id = n })
renumbered n v = record { distinct = v.distinct; held = v.held }

-- A made promise that is no longer waiting keeps what it has.
abbrev pub Settles : AsyncState → AsyncState → Type 0
Settles s s' =
    (p : ℕ)
    → p < s.next_promise
    → is_waiting (s.promises p) ≡ false
    → (p < s'.next_promise) × (s'.promises p ≡ s.promises p)

-- A section ends, in a valid state, and no set promise changed.
abbrev pub Advances : AsyncState → Option AsyncState → Type 0
Advances s o = (s' : AsyncState) × (o ≡ some s') × IsValid s' × Settles s s'

pub register-Settles :
    (id : Bytes) (deadline : ℤ) (s : AsyncState)
    → (lookup id s.pending ≡ none) ⊎ ((r : PendingRequest) × (lookup id s.pending ≡ some r))
    → Settles s (register id deadline s)
unfolding register abandon_old
register-Settles id deadline s (inl e) = λ p m w. ground arith
register-Settles id deadline s (inr (r, e)) = λ p m w. ground arith

pub settle-Advances :
    (id : Bytes) (result : AsyncResult) (s : AsyncState)
    → IsValid s
    → Advances s (settle id result s)
unfolding settle
settle-Advances id result s v = elim (Option-cases (lookup id s.pending)) [
  | inl e ↦ (s, rw (e, settle) refl, v, λ p m w. (m, refl))
  | inr (r, e) ↦
      let (s', eq, v') = settle-IsValid id result s v in
      let done = settle-eq id result s r v e in
      (
        settled id result s r,
        done,
        subst IsValid (some-injective s' (settled id result s r) (sym eq ∙ done)) v',
        λ p m w. ground (arith, v.held p, holders-pos_of_lookup id s.pending r e),
      )
]

pub response-Advances :
    (msg : Bytes) (s : AsyncState) → IsValid s → Advances s (handle_response msg s)
unfolding handle_response
response-Advances msg s v = elim (Bool-cases (is_empty (extract_id msg))) [
  | inl e ↦ (s, rw (e, handle_response) refl, v, λ p m w. (m, refl))
  | inr e ↦ rw (e, handle_response) (settle-Advances (extract_id msg) _ s v)
]

pub tick-Advances : (now : ℤ) (s : AsyncState) → IsValid s → Advances s (check_timeouts now s)
unfolding check_timeouts
tick-Advances now s v =
    let (s', eq, pending, next, at, v') = check_timeouts_lem now s v in
    (s', eq, v', λ p m w. ground (arith, next, at p, v.held p, is_due-held now s.pending p))

apply-Advances : (e : Event) (s : AsyncState) → IsValid s → Advances s (apply e s)
unfolding apply
apply-Advances (request json deadline) s v =
    let x = extract_or_inject_id json s.next_id in
    let s0 : AsyncState = record s { next_id = x.next_id } in
    (
      register x.id deadline s0,
      refl,
      register-IsValid x.id deadline (renumbered x.next_id v),
      register-Settles x.id deadline s0 (Option-cases (lookup x.id s.pending)),
    )
apply-Advances (refused id result) s v = settle-Advances id result s v
apply-Advances (response msg) s v = response-Advances msg s v
apply-Advances (tick now) s v = tick-Advances now s v

-- From a valid state any interleaving of the critical sections runs to its end in a valid state: no
-- promise is set twice, and every promise that still waits is held by exactly one entry of the
-- table. A promise that has been set, or broken, keeps what it has for good.
pub run-IsValid :
    (es : List Event) (s : AsyncState)
    → IsValid s
    → (s' : AsyncState) × (run es s ≡ some s')
      × IsValid s'
      × ((p : ℕ)
          → p < s.next_promise
          → is_waiting (s.promises p) ≡ false
          → (p < s'.next_promise) × (s'.promises p ≡ s.promises p))
unfolding run
run-IsValid [] s v = (s, refl, v, λ p m w. (m, refl))
run-IsValid (e ∷ es) s v =
    let (s1, eq, v1, keep) = apply-Advances e s v in
    let (s2, eq2, v2, keep2) = run-IsValid es s1 v1 in
    (
      s2,
      rw (eq, run) eq2,
      v2,
      λ p m w.
          let (m1, same) = keep p m w in
          let (m2, same2) = keep2 p m1 (rw same w) in (m2, same2 ∙ same),
    )

is_due_late :
    (now : ℤ) (t : Table) (p : ℕ)
    → All (λ e. leb_ℤ e.1.deadline now ≡ true) t
    → 0 < holders p t
    → is_due now t p ≡ true
unfolding holders is_due
is_due_late now [] p h m = ground arith
is_due_late now ((id, r) ∷ t) p h m = ground (arith, is_due_late now t p h.1)

live_none : (now : ℤ) (t : Table) → All (λ e. leb_ℤ e.1.deadline now ≡ true) t → live now t ≡ []
unfolding live
live_none now [] h = refl
live_none now ((id, r) ∷ t) h = ground (arith, live_none now t h.1)

-- A sweep at or after every deadline leaves no pending request, and no made promise waiting: each
-- future that was still waiting has the timeout error.
pub check_timeouts_late :
    (now : ℤ) (s : AsyncState)
    → IsValid s
    → All (λ e. leb_ℤ e.1.deadline now ≡ true) s.pending
    → (s' : AsyncState) × (check_timeouts now s ≡ some s')
      × (s'.pending ≡ [])
      × ((p : ℕ)
          → p < s.next_promise
          → s'.promises p ≡ (
              if is_waiting (s.promises p)
              then ready (record {
                error = with_message ErrorCode.timeout (codes "Request timed out");
                response = [];
              })
              else s.promises p))
unfolding check_timeouts
check_timeouts_late now s v all =
    let (s', eq, pending, next, at, v') = check_timeouts_lem now s v in
    (
      s',
      eq,
      pending ∙ live_none now s.pending all,
      λ p m.
          ground
            (arith, at p, v.held p, is_due-held now s.pending p, is_due_late now s.pending p all),
    )
