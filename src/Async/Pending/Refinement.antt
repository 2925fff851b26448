-- ===== src/Async/Pending/Refinement.antt =====
-- The critical sections of AsyncBus against the specification of its futures.
use stdiobus_cpp.Prelude.{
  ◌≡◌, refl, sym, subst, some-injective, ◌∙◌, Option, some, List, [], ◌∷◌, Bytes, is_empty, arith,
  Option-cases, Bool-cases, inl, inr,
}
use stdiobus_cpp.Prelude.Int.{ℤ}
use stdiobus_cpp.Async.Id.{extract_id, extract_or_inject_id}
use stdiobus_cpp.Async.Table.{lookup}
use stdiobus_cpp.Async.Pending.{
  AsyncResult, AsyncState, register, settle, handle_response, check_timeouts,
}
use stdiobus_cpp.Async.Pending.Invariant.{
  IsValid, settled, settle-eq, settle-IsValid, register-IsValid,
}
use stdiobus_cpp.Async.Pending.History
use stdiobus_cpp.Async.Pending.History.{Event, request, refused, response, tick}
use stdiobus_cpp.Async.Pending.Timeouts.{check_timeouts_lem}
use stdiobus_cpp.Async.Pending.Spec.{
  Future, unmade, open_under, done, lost, Futures, answer, displace, expire, ask, each,
}
use stdiobus_cpp.Async.Pending.Spec
use stdiobus_cpp.Async.Pending.View.{
  view, view_ext, register-at_free, register-at_taken, settle-at_found, settle-at_missing, tick-at,
}

-- An event runs, and the futures afterwards are those of the specification.
abbrev pub Refines : Option AsyncState → Futures → Type 0
Refines o v = (s : AsyncState) × (o ≡ some s) × IsValid s × (view s ≡ v)

pub register-Refines :
    (id : Bytes) (deadline : ℤ) (s : AsyncState)
    → IsValid s
    → view (register id deadline s) ≡ ask id deadline (view s)
register-Refines id deadline s v =
    view_ext (register id deadline s) (ask id deadline (view s)) (unfold register in refl)
      (unfold register in refl)
      (elim (Option-cases (lookup id s.pending)) [
        | inl e ↦ λ p. register-at_free id deadline s p v e
        | inr (old, e) ↦ λ p. register-at_taken id deadline s old p v e
      ])

pub settle-Refines :
    (id : Bytes) (result : AsyncResult) (s : AsyncState)
    → IsValid s
    → Refines (settle id result s) (each (answer id result) (view s))
unfolding settle
settle-Refines id result s v = elim (Option-cases (lookup id s.pending)) [
  | inl e ↦ (
    s,
    rw (e, settle) refl,
    v,
    view_ext s (each (answer id result) (view s)) refl refl
        (λ p. settle-at_missing id result s p v e),
  )
  | inr (r, e) ↦
      let (s', eq, v') = settle-IsValid id result s v in
      let done = settle-eq id result s r v e in
      (
        settled id result s r,
        done,
        subst IsValid (some-injective s' (settled id result s r) (sym eq ∙ done)) v',
        view_ext (settled id result s r) (each (answer id result) (view s)) refl refl
            (λ p. settle-at_found id result s r p v e),
      )
]

pub response-Refines :
    (msg : Bytes) (s : AsyncState)
    → IsValid s
    → Refines (handle_response msg s) (Spec.apply (response msg) (view s))
unfolding handle_response Spec.apply
response-Refines msg s v = elim (Bool-cases (is_empty (extract_id msg))) [
  | inl e ↦ (s, rw (e, handle_response) refl, v, rw (e, Spec.apply) refl)
  | inr e ↦ rw (e, handle_response, Spec.apply) (settle-Refines (extract_id msg) _ s v)
]

pub check_timeouts-next_id :
    (now : ℤ) (s s' : AsyncState) → check_timeouts now s ≡ some s' → s'.next_id ≡ s.next_id
unfolding check_timeouts
check_timeouts-next_id now s s' e = ground arith

pub tick-Refines :
    (now : ℤ) (s : AsyncState)
    → IsValid s
    → Refines (check_timeouts now s) (each (expire now) (view s))
tick-Refines now s v =
    let (s', eq, pending, next, at, v') = check_timeouts_lem now s v in
    (
      s',
      eq,
      v',
      view_ext s' (each (expire now) (view s)) next (check_timeouts-next_id now s s' eq)
          (λ p. rw (next, pending) (tick-at now s p (s'.promises p) v (at p))),
    )

pub apply-Refines :
    (e : Event) (s : AsyncState) → IsValid s → Refines (History.apply e s) (Spec.apply e (view s))
unfolding History.apply Spec.apply
apply-Refines (request json deadline) s v =
    let x = extract_or_inject_id json s.next_id in
    let s0 : AsyncState = record s { next_id = x.next_id } in
    let v0 : IsValid s0 = record { distinct = v.distinct; held = v.held } in
    (
      register x.id deadline s0,
      refl,
      register-IsValid x.id deadline v0,
      register-Refines x.id deadline s0 v0,
    )
apply-Refines (refused id result) s v = settle-Refines id result s v
apply-Refines (response msg) s v = response-Refines msg s v
apply-Refines (tick now) s v = tick-Refines now s v

-- The critical sections of AsyncBus, in any order and from any valid state, do to its futures what
-- the specification does to each future by itself: the order of the table plays no part.
pub run-Refines :
    (es : List Event) (s : AsyncState)
    → IsValid s
    → (s' : AsyncState) × (History.run es s ≡ some s')
      × IsValid s'
      × (view s' ≡ Spec.run es (view s))
unfolding History.run Spec.run
run-Refines [] s v = (s, refl, v, refl)
run-Refines (e ∷ es) s v =
    let (s1, eq, v1, same) = apply-Refines e s v in
    rw (eq, History.run, ← same) (run-Refines es s1 v1)
