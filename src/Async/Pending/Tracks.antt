-- ===== src/Async/Pending/Tracks.antt =====
-- What one future can count on while other requests are settled.
use stdiobus_cpp.Prelude.{
  ◌≡◌, refl, Option, some, Bytes, arith, is_empty, Option-cases, Bool-cases, inl, inr, ◌≢◌, subst,
  some-injective, sym, ◌∙◌,
}
use stdiobus_cpp.Prelude.Int.{ℤ}
use stdiobus_cpp.Async.Id.{extract_id}
use stdiobus_cpp.Async.Table.{PendingRequest, lookup}
use stdiobus_cpp.Async.Table.Laws.{lookup-put, lookup-erase, bytes_eq_refl, bytes_eq_iff}
use stdiobus_cpp.Async.Pending.{AsyncResult, AsyncState, waiting, register, settle, handle_response}
use stdiobus_cpp.Async.Pending.Invariant.{IsValid, settle-IsValid, settle-eq, settled}

-- The promise of the request is set, or the request stands in the table under its id.
abbrev pub Tracks : Bytes → PendingRequest → AsyncState → Type 0
Tracks id r s = s.promises r.promise ≡ waiting → lookup id s.pending ≡ some r

abbrev pub IsOngoing : Bytes → PendingRequest → AsyncState → Type 0
IsOngoing id r s = IsValid s × Tracks id r s

-- No critical section fails, and the request is tracked afterwards.
abbrev pub Continues : Bytes → PendingRequest → Option AsyncState → Type 0
Continues id r o = (s : AsyncState) × (o ≡ some s) × IsOngoing id r s

settled-Tracks :
    (id key : Bytes) (r old : PendingRequest) (result : AsyncResult) (s : AsyncState)
    → IsValid s
    → Tracks id r s
    → lookup key s.pending ≡ some old
    → Tracks id r (settled key result s old)
settled-Tracks id key r old result s v t e =
    λ w. ground (arith, t, e, lookup-erase key id s.pending v.distinct, bytes_eq_iff key id)

pub settle-Tracks :
    (id key : Bytes) (r : PendingRequest) (result : AsyncResult) (s : AsyncState)
    → IsValid s
    → Tracks id r s
    → Continues id r (settle key result s)
unfolding settle
settle-Tracks id key r result s v t = elim (Option-cases (lookup key s.pending)) [
  | inl e ↦ (s, rw (e, settle) refl, (v, t))
  | inr (old, e) ↦
      let (s', eq, v') = settle-IsValid key result s v in
      let done = settle-eq key result s old v e in
      (
        settled key result s old,
        done,
        (
          subst IsValid (some-injective s' (settled key result s old) (sym eq ∙ done)) v',
          settled-Tracks id key r old result s v t e,
        ),
      )
]

pub handle_response-Tracks :
    (id msg : Bytes) (r : PendingRequest) (s : AsyncState)
    → IsValid s
    → Tracks id r s
    → Continues id r (handle_response msg s)
unfolding handle_response
handle_response-Tracks id msg r s v t = elim (Bool-cases (is_empty (extract_id msg))) [
  | inl e ↦ (s, rw (e, handle_response) refl, (v, t))
  | inr e ↦ rw (e, handle_response) (settle-Tracks id (extract_id msg) r _ s v t)
]

pub register-Tracks :
    (id : Bytes) (deadline : ℤ) (s : AsyncState)
    → Tracks id (record { promise = s.next_promise; deadline = deadline }) (register id deadline s)
unfolding register
register-Tracks id deadline s = λ w.
    rw
      (
        lookup-put id id (record { promise = s.next_promise; deadline = deadline }) s.pending,
        bytes_eq_refl id,
      )
      refl

-- Settling under the id of a tracked request leaves its promise set.
pub settle-resolves :
    (id : Bytes) (r : PendingRequest) (result : AsyncResult) (s : AsyncState)
    → IsValid s
    → Tracks id r s
    → (s' : AsyncState) × (settle id result s ≡ some s')
      × IsValid s'
      × (s'.promises r.promise ≢ waiting)
unfolding settle
settle-resolves id r result s v t = elim (Option-cases (lookup id s.pending)) [
  | inl e ↦ (s, rw (e, settle) refl, v, λ w. cc (t w))
  | inr (old, e) ↦
      let (s', eq, (v', t')) = settle-Tracks id id r result s v t in
      let done = settle-eq id result s old v e in
      (
        s',
        eq,
        v',
        λ w.
            ground (arith, t' w, t, e, some-injective s' (settled id result s old) (sym eq ∙ done)),
      )
]
