-- ===== src/Examples/Async/Sent.antt =====
-- The requests of async.cpp while they are under way: their ids differ, and no future is broken.
pub mod Text
use stdiobus_cpp.Prelude.{
  ℕ, suc, ◌<◌, ◌+◌, ◌≡◌, ◌≢◌, ◌∙◌, refl, sym, subst, Bool, true, false, none, some, [], ◌∷◌, Bytes,
  All, arith, ◌==◌, leb, if◌then◌else◌, Option-cases, Bool-cases, inl, inr, bytes_eq,
}
use stdiobus_cpp.Prelude.Int.{ℤ, leb_ℤ}
use stdiobus_cpp.Async.Id.Decimal.{to_string}
use stdiobus_cpp.Async.Table.{PendingRequest, Table, lookup, erase, put}
use stdiobus_cpp.Async.Table.Laws.{bytes_eq_iff, bytes_eq_eq}
use stdiobus_cpp.Async.Pending.{
  AsyncState, AsyncResult, Shared, waiting, ready, broken, register, abandon_old, settle,
  check_timeouts, start, timed_out,
}
use stdiobus_cpp.Async.Pending.Invariant.{
  IsValid, is_waiting, settled, settle-eq, settle-IsValid, register-IsValid, start-IsValid,
}
use stdiobus_cpp.Async.Pending.Timeouts.{live, check_timeouts_lem}
use stdiobus_cpp.Async.Pending.History.{check_timeouts_late}
use stdiobus_cpp.Async.Client.Runs.Calls.{Settles}
use stdiobus_cpp.Async.Id.Decimal.Digits.{to_string_ne}

All-erase :
    (F : Bytes × PendingRequest → Type 0) (id : Bytes) (t : Table) → All F t → All F (erase id t)
unfolding erase
All-erase F id [] h = tt
All-erase F id ((key, r) ∷ t) h = elim (Bool-cases (bytes_eq key id)) [
  | inl e ↦ rw (e, erase) h.1
  | inr e ↦ rw (e, erase) (h.0, All-erase F id t h.1)
]

All-put :
    (F : Bytes × PendingRequest → Type 0) (id : Bytes) (r : PendingRequest) (t : Table)
    → F (id, r)
    → All F t
    → All F (put id r t)
unfolding put
All-put F id r [] x h = (x, tt)
All-put F id r ((key, old) ∷ t) x h = elim (Bool-cases (bytes_eq key id)) [
  | inl e ↦ rw (e, put) (subst (λ k. F (k, r)) (sym (bytes_eq_eq key id e)) x, h.1)
  | inr e ↦ rw (e, put) (h.0, All-put F id r t x h.1)
]

All-live :
    (F : Bytes × PendingRequest → Type 0) (now : ℤ) (t : Table) → All F t → All F (live now t)
unfolding live
All-live F now [] h = tt
All-live F now ((key, r) ∷ t) h = elim (Bool-cases (leb_ℤ r.deadline now)) [
  | inl e ↦ rw (e, live) (All-live F now t h.1)
  | inr e ↦ rw (e, live) (h.0, All-live F now t h.1)
]

All-map_prop :
    {F G : Bytes × PendingRequest → Type 0} (t : Table)
    → ((e : Bytes × PendingRequest) → F e → G e)
    → All F t
    → All G t
All-map_prop [] f h = tt
All-map_prop (e ∷ t) f h = (f e h.0, All-map_prop t f h.1)

lookup_absent : (id : Bytes) (t : Table) → All (λ e. id ≢ e.0) t → lookup id t ≡ none
unfolding lookup
lookup_absent id [] h = refl
lookup_absent id ((key, r) ∷ t) h = ground (arith, bytes_eq_iff key id, h.0, lookup_absent id t h.1)

-- An entry that is due by `bound`, under none of the ids of the requests behind number n.
abbrev Entry : ℤ → ℕ → Bytes × PendingRequest → Type 0
Entry bound n e = (leb_ℤ e.1.deadline bound ≡ true) × ((k : ℕ) → n < k → to_string k ≢ e.0)

-- n requests have been made.
pub record Sent (bound : ℤ) (n : ℕ) (st : AsyncState) : Type 0 where
  pub valid : IsValid st
  pub made : st.next_promise ≡ n
  pub unbroken : (p : ℕ) → p < n → st.promises p ≢ broken
  pub entries : All (Entry bound n) st.pending

ready_or_not : (x : Shared) → is_waiting (if is_waiting x then ready timed_out else x) ≡ false
ready_or_not waiting = refl
ready_or_not (ready r) = refl
ready_or_not broken = refl

module _ (bound : ℤ) where
  pub start-Sent : Sent bound 0 start
  start-Sent = record {
    valid = start-IsValid;
    made = refl;
    unbroken = λ p h. absurd (omega arith);
    entries = tt;
  }

  pub register-Sent :
      (n : ℕ) (deadline : ℤ) (st : AsyncState)
      → leb_ℤ deadline bound ≡ true
      → Sent bound n st
      → Sent bound (suc n) (register (to_string (suc n)) deadline st)
  unfolding register abandon_old
  register-Sent n deadline st due v =
      let absent =
        lookup_absent (to_string (suc n)) st.pending
          (All-map_prop st.pending (λ e h. h.1 (suc n) (omega arith)) v.entries) in
      record {
        valid = register-IsValid (to_string (suc n)) deadline v.valid;
        made = rw v.made refl;
        unbroken = λ p m.
            rw (absent, abandon_old) (λ x. let u = v.unbroken p in ground (arith, u, v.made, x));
        entries =
            All-put (Entry bound (suc n)) (to_string (suc n)) _ st.pending
              (due, λ k m. to_string_ne k (suc n) (omega arith))
              (All-map_prop st.pending (λ e h. (h.0, λ k m. h.1 k (omega arith))) v.entries);
      }

  pub settle-Sent : (n : ℕ) → Settles (Sent bound n)
  unfolding settle
  settle-Sent n id result st v = elim (Option-cases (lookup id st.pending)) [
    | inl e ↦ (st, rw (e, settle) refl, v)
    | inr (r, e) ↦
        let eq = settle-eq id result st r v.valid e in
        let (st', eq', valid) = settle-IsValid id result st v.valid in
        (
          settled id result st r,
          eq,
          record {
            valid = subst IsValid (cc (eq, eq')) valid;
            made = v.made;
            unbroken = λ p m x. (let u = v.unbroken p in ground (arith, u, x));
            entries = All-erase (Entry bound n) id st.pending v.entries;
          },
        )
  ]

  -- A sweep keeps the requests, and behind `bound` nothing waits.
  pub check_timeouts-Sent :
      (n : ℕ) (now : ℤ) (st : AsyncState)
      → Sent bound n st
      → (st' : AsyncState) × (check_timeouts now st ≡ some st')
        × Sent bound n st'
        × (leb_ℤ bound now ≡ true → (p : ℕ) → p < n → is_waiting (st'.promises p) ≡ false)
  check_timeouts-Sent n now st v =
      let (st', eq, pending, next, at, valid) = check_timeouts_lem now st v.valid in
      (
        st',
        eq,
        record {
          valid = valid;
          made = next ∙ v.made;
          unbroken = λ p m x. (let u = v.unbroken p in ground (arith, u, at p, x));
          entries = rw pending (All-live (Entry bound n) now st.pending v.entries);
        },
        λ late p m.
            let (st2, eq2, _, done) = check_timeouts_late now st v.valid (
              All-map_prop st.pending (λ e h. let due = h.0 in ground (arith, due, late))
                v.entries) in
            let same : st2 ≡ st' = cc (eq, eq2) in
            let d = done p (rw v.made m) in
            subst (λ z. is_waiting (z.promises p) ≡ false) same
              (rw d (ready_or_not (st.promises p))),
      )
