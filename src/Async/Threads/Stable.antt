-- ===== src/Async/Threads/Stable.antt =====
-- What a thread counts on while another one is in a critical section.
use stdiobus_cpp.Prelude.{
  ℕ, ◌<◌, ◌≡◌, refl, sym, ap, is_empty, subst, ◌∙◌, true, false, Option, some, [], ◌∷◌, Bytes,
  arith, Option-cases, Bool-cases, inl, inr, some-injective,
}
use stdiobus_cpp.Prelude.Int.{ℤ, leb_ℤ}
use stdiobus_cpp.Async.Id.{extract_id}
use stdiobus_cpp.Async.Table.{PendingRequest, Table, lookup}
use stdiobus_cpp.Async.Table.Laws.{lookup-put, bytes_eq_iff}
use stdiobus_cpp.Async.Pending.{
  AsyncState, AsyncResult, register, abandon_old, settle, handle_response, check_timeouts,
}
use stdiobus_cpp.Async.Pending.Invariant.{IsValid, register-IsValid}
use stdiobus_cpp.Async.Pending.Timeouts.{live, is_due, check_timeouts_lem}
use stdiobus_cpp.Async.Pending.Tracks.{Tracks, IsOngoing, settle-Tracks, handle_response-Tracks}
use stdiobus_cpp.Async.Pending.History.{
  Settles, Advances, register-Settles, settle-Advances, response-Advances, tick-Advances,
}

-- A request that has been made, and is tracked.
abbrev pub Pursues : Bytes → PendingRequest → AsyncState → Type 0
Pursues id r s = (r.promise < s.next_promise) × Tracks id r s

-- The requests stay valid, tracked requests stay tracked, and a promise keeps its value.
pub record Stable (s t : AsyncState) : Type 0 where
  pub valid : IsValid t
  pub pursues : (id : Bytes) (r : PendingRequest) → Pursues id r s → Pursues id r t
  pub settles : Settles s t

pub counter-Stable : (n : ℕ) (s : AsyncState) → IsValid s → Stable s (record s { next_id = n })
counter-Stable n s v = record {
  valid = record { distinct = v.distinct; held = v.held };
  pursues = λ id r h. h;
  settles = λ p m w. (m, refl);
}

pub same-Stable : (s : AsyncState) → IsValid s → Stable s s
same-Stable s v = record { valid = v; pursues = λ id r h. h; settles = λ p m w. (m, refl) }

register-Tracks_other :
    (id key : Bytes) (deadline : ℤ) (r : PendingRequest) (s : AsyncState)
    → r.promise < s.next_promise
    → Tracks key r s
    → Tracks key r (register id deadline s)
unfolding register abandon_old
register-Tracks_other id key deadline r s m t = elim (Option-cases (lookup id s.pending)) [
  | inl e ↦ λ w. ground (
    arith,
    m,
    t,
    e,
    w,
    lookup-put id key (record { promise = s.next_promise; deadline = deadline }) s.pending,
    bytes_eq_iff id key,
  )
  | inr (old, e) ↦ λ w. ground (
    arith,
    m,
    t,
    e,
    w,
    lookup-put id key (record { promise = s.next_promise; deadline = deadline }) s.pending,
    bytes_eq_iff id key,
  )
]

pub register-Stable :
    (id : Bytes) (deadline : ℤ) (s : AsyncState) → IsValid s → Stable s (register id deadline s)
register-Stable id deadline s v = record {
  valid = register-IsValid id deadline v;
  pursues = λ key r h.
      (unfold register in omega (arith, h.0), register-Tracks_other id key deadline r s h.0 h.1);
  settles = register-Settles id deadline s (Option-cases (lookup id s.pending));
}

pub settle-next :
    (id : Bytes) (result : AsyncResult) (s t : AsyncState)
    → settle id result s ≡ some t
    → t.next_promise ≡ s.next_promise
unfolding settle
settle-next id result s t e = ground (arith, e)

handle_response-next :
    (msg : Bytes) (s t : AsyncState)
    → handle_response msg s ≡ some t
    → t.next_promise ≡ s.next_promise
unfolding handle_response
handle_response-next msg s t e = elim (Bool-cases (is_empty (extract_id msg))) [
  | inl f ↦ ap (λ x. x.next_promise) (sym (some-injective s t (rw (f, handle_response) at e)))
  | inr f ↦ settle-next (extract_id msg) _ s t (rw (f, handle_response) at e)
]

lookup-live :
    (now : ℤ) (id : Bytes) (r : PendingRequest) (t : Table)
    → lookup id t ≡ some r
    → leb_ℤ r.deadline now ≡ false
    → lookup id (live now t) ≡ some r
unfolding lookup live
lookup-live now id r [] h late = h
lookup-live now id r ((k, old) ∷ t) h late = ground (arith, h, late, lookup-live now id r t)

is_due_of_lookup :
    (now : ℤ) (id : Bytes) (r : PendingRequest) (t : Table)
    → lookup id t ≡ some r
    → leb_ℤ r.deadline now ≡ true
    → is_due now t r.promise ≡ true
unfolding lookup is_due
is_due_of_lookup now id r [] h late = cc (h)
is_due_of_lookup now id r ((k, old) ∷ t) h late =
    ground (arith, h, late, is_due_of_lookup now id r t)

sweep-Tracks :
    (now : ℤ) (s : AsyncState) (id : Bytes) (r : PendingRequest)
    → IsValid s
    → Tracks id r s
    → (t : AsyncState) × (check_timeouts now s ≡ some t) × Tracks id r t
sweep-Tracks now s id r v k =
    let (t, eq, pending, next, at, _) = check_timeouts_lem now s v in
    let at_r = at r.promise in
    (
      t,
      eq,
      λ w. rw pending (elim (Bool-cases (is_due now s.pending r.promise)) [
        | inl d ↦ ground (arith, d, at_r, w)
        | inr d ↦
            let found = k (ground (arith, d, at_r, w)) in
            let early : leb_ℤ r.deadline now ≡ false = elim (Bool-cases (leb_ℤ r.deadline now)) [
              | inl x ↦ ground (arith, d, is_due_of_lookup now id r s.pending found x)
              | inr x ↦ x
            ] in
            lookup-live now id r s.pending found early
      ]),
    )

-- A result of a section that is the state `t`.
pub the_state :
    {o : Option AsyncState} {t : AsyncState} (P : AsyncState → Type 0)
    → o ≡ some t
    → (x : AsyncState) × (o ≡ some x) × P x
    → P t
the_state {o} {t} P e (x, f, h) = subst P (some-injective x t (sym f ∙ e)) h

Stable-of :
    (s t : AsyncState) (o : Option AsyncState)
    → o ≡ some t
    → Advances s o
    → t.next_promise ≡ s.next_promise
    → ((id : Bytes) (r : PendingRequest) → Tracks id r s → Tracks id r t)
    → Stable s t
Stable-of s t o e (x, f, v, settles) next tracks =
    let same : x ≡ t = some-injective x t (sym f ∙ e) in
    record {
      valid = subst IsValid same v;
      pursues = λ id r h. (rw next h.0, tracks id r h.1);
      settles = subst (Settles s) same settles;
    }

pub settle-Stable :
    (key : Bytes) (result : AsyncResult) (s t : AsyncState)
    → IsValid s
    → settle key result s ≡ some t
    → Stable s t
settle-Stable key result s t v e =
    Stable-of s t _ e (settle-Advances key result s v) (settle-next key result s t e)
      (λ id r k. (the_state (IsOngoing id r) e (settle-Tracks id key r result s v k)).1)

pub handle_response-Stable :
    (msg : Bytes) (s t : AsyncState) → IsValid s → handle_response msg s ≡ some t → Stable s t
handle_response-Stable msg s t v e =
    Stable-of s t _ e (response-Advances msg s v) (handle_response-next msg s t e)
      (λ id r k. (the_state (IsOngoing id r) e (handle_response-Tracks id msg r s v k)).1)

pub check_timeouts-Stable :
    (now : ℤ) (s t : AsyncState) → IsValid s → check_timeouts now s ≡ some t → Stable s t
check_timeouts-Stable now s t v e =
    Stable-of s t _ e (tick-Advances now s v)
      (the_state (λ x. x.next_promise ≡ s.next_promise) e
        (let (x, f, _, next, _, _) = check_timeouts_lem now s v in (x, f, next)))
      (λ id r k. the_state (Tracks id r) e (sweep-Tracks now s id r v k))
