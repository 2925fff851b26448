-- ===== src/Async/Pending/Timeouts.antt =====
-- What check_timeouts does to the pending requests.
use stdiobus_cpp.Prelude.{
  ℕ, ◌≤◌, ◌<◌, ◌≡◌, refl, Bool, true, false, ◌&&◌, ◌||◌, none, some, [], ◌∷◌, Bytes, arith, ◌==◌,
  if◌then◌else◌, Bool-cases, inl, inr,
}
use stdiobus_cpp.Prelude.Int.{ℤ, leb_ℤ}
use stdiobus_cpp.Async.Table.{PendingRequest, Table, lookup, holders}
use stdiobus_cpp.Async.Table.Laws.{Distinct}
use stdiobus_cpp.Prelude.{codes, []}
use stdiobus_cpp.Error.{with_message}
use stdiobus_cpp.ErrorCode
use stdiobus_cpp.Async.Pending.{
  AsyncState, Shared, waiting, ready, set_value, sweep, check_timeouts, timed_out,
}
use stdiobus_cpp.Async.Pending.Invariant.{IsValid}

-- The entries whose deadline lies ahead of `now`.
unfoldable pub live : ℤ → Table → Table
live now [] = []
live now ((id, r) ∷ t) = if leb_ℤ r.deadline now then live now t else (id, r) ∷ live now t

-- An entry whose deadline is reached at `now` holds the promise p.
unfoldable pub is_due : ℤ → Table → ℕ → Bool
is_due now [] p = false
is_due now ((id, r) ∷ t) p = (leb_ℤ r.deadline now && (r.promise == p)) || is_due now t p

-- Each promise in the table is held once, and waits.
abbrev pub Unset : Table → (ℕ → Shared) → Type 0
Unset t promises = (p : ℕ) → (holders p t ≤ 1) × (0 < holders p t → promises p ≡ waiting)

Unset-tail :
    (id : Bytes) (r : PendingRequest) (t : Table) (promises : ℕ → Shared)
    → Unset ((id, r) ∷ t) promises
    → Unset t promises
unfolding holders
Unset-tail id r t promises u p = let h = u p in ground (arith, h)

Unset-set :
    (id : Bytes) (r : PendingRequest) (t : Table) (promises : ℕ → Shared)
    → Unset ((id, r) ∷ t) promises
    → Unset t (λ q. if r.promise == q then ready timed_out else promises q)
unfolding holders
Unset-set id r t promises u p = let h = u p in ground (arith, h)

set_value-head :
    (id : Bytes) (r : PendingRequest) (t : Table) (promises : ℕ → Shared)
    → Unset ((id, r) ∷ t) promises
    → set_value promises r.promise timed_out
      ≡ some (λ q. if r.promise == q then ready timed_out else promises q)
unfolding holders set_value
set_value-head id r t promises u = let h = u r.promise in ground (arith, h)

-- What the sweep from the table `t` and the promises `promises` gives.
abbrev pub Swept : ℤ → Table → (ℕ → Shared) → Type 0
Swept now t promises =
    (promises' : ℕ → Shared) × (sweep now t promises ≡ some (live now t, promises'))
    × ((p : ℕ) → promises' p ≡ (if is_due now t p then ready timed_out else promises p))

sweep-due :
    (now : ℤ) (id : Bytes) (r : PendingRequest) (t : Table) (promises : ℕ → Shared)
    → leb_ℤ r.deadline now ≡ true
    → set_value promises r.promise timed_out
      ≡ some (λ q. if r.promise == q then ready timed_out else promises q)
    → Swept now t (λ q. if r.promise == q then ready timed_out else promises q)
    → Swept now ((id, r) ∷ t) promises
unfolding sweep live is_due
sweep-due now id r t promises e sv (promises', eq, at) =
    (promises', rw (e, sweep, sv) eq, λ p. let h = at p in ground (arith, h))

sweep-live :
    (now : ℤ) (id : Bytes) (r : PendingRequest) (t : Table) (promises : ℕ → Shared)
    → leb_ℤ r.deadline now ≡ false
    → Swept now t promises
    → Swept now ((id, r) ∷ t) promises
unfolding sweep live is_due
sweep-live now id r t promises e (promises', eq, at) =
    (promises', rw (e, sweep, eq) refl, λ p. let h = at p in ground (arith, h))

pub sweep-Swept :
    (now : ℤ) (t : Table) (promises : ℕ → Shared) → Unset t promises → Swept now t promises
sweep-Swept now [] promises u = unfold sweep live is_due in (promises, refl, λ p. refl)
sweep-Swept now ((id, r) ∷ t) promises u = elim (Bool-cases (leb_ℤ r.deadline now)) [
  | inl e ↦
      sweep-due now id r t promises e (set_value-head id r t promises u)
        (sweep-Swept now t _ (Unset-set id r t promises u))
  | inr e ↦
      sweep-live now id r t promises e (sweep-Swept now t promises (Unset-tail id r t promises u))
]

Unset-pending : (s : AsyncState) → IsValid s → Unset s.pending s.promises
Unset-pending s v p = let h = v.held p in ground (arith, h)

lookup-live :
    (key : Bytes) (now : ℤ) (t : Table) → lookup key t ≡ none → lookup key (live now t) ≡ none
unfolding lookup live
lookup-live key now [] h = h
lookup-live key now ((id, r) ∷ t) h = ground (arith, lookup-live key now t)

live-Distinct : (now : ℤ) (t : Table) → Distinct t → Distinct (live now t)
unfolding live
live-Distinct now [] d = tt
live-Distinct now ((id, r) ∷ t) d =
    ground (arith, lookup-live id now t d.0, live-Distinct now t d.1)

pub is_due-held : (now : ℤ) (t : Table) (p : ℕ) → is_due now t p ≡ true → 0 < holders p t
unfolding is_due holders
is_due-held now [] p h = cc
is_due-held now ((id, r) ∷ t) p h = ground (arith, is_due-held now t p)

-- An entry is either kept or due.
holders-live :
    (now : ℤ) (t : Table) (p : ℕ)
    → holders p t ≤ 1
    → holders p (live now t) ≡ (if is_due now t p then 0 else holders p t)
unfolding holders live is_due
holders-live now [] p h = refl
holders-live now ((id, r) ∷ t) p h = ground (arith, holders-live now t p, is_due-held now t p)

-- A sweep at the time `now` never sets a promise twice. It gives the timeout error to exactly the
-- futures whose request has reached its deadline, keeps exactly the other requests, leaves every
-- other future alone, and keeps the invariant.
pub check_timeouts_lem :
    (now : ℤ) (s : AsyncState)
    → IsValid s
    → (s' : AsyncState) × (check_timeouts now s ≡ some s')
      × (s'.pending ≡ live now s.pending)
      × (s'.next_promise ≡ s.next_promise)
      × ((p : ℕ)
          → s'.promises p ≡ (
              if is_due now s.pending p
              then ready (record {
                error = with_message ErrorCode.timeout (codes "Request timed out");
                response = [];
              })
              else s.promises p))
      × IsValid s'
unfolding check_timeouts
check_timeouts_lem now s v =
    let (promises', eq, at) = sweep-Swept now s.pending s.promises (Unset-pending s v) in
    (
      record s { pending = live now s.pending; promises = promises' },
      rw (eq, check_timeouts) refl,
      refl,
      refl,
      at,
      record {
        distinct = live-Distinct now s.pending v.distinct;
        held = λ p.
            let h = v.held p in
            let a = at p in
            ground (arith, h, a, holders-live now s.pending p, is_due-held now s.pending p);
      },
    )
