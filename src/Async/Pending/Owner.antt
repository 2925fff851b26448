-- ===== src/Async/Pending/Owner.antt =====
-- The entry of the table that holds a promise, after each operation on the table.
use stdiobus_cpp.Prelude.{
  ℕ, ◌≤◌, ◌≡◌, refl, Bool, false, none, some, [], ◌∷◌, Bytes, bytes_eq, arith, ◌==◌, if◌then◌else◌,
  ◌⊎◌, inl, inr, Bool-cases,
}
use stdiobus_cpp.Prelude.Int.{ℤ, leb_ℤ}
use stdiobus_cpp.Async.Table.{PendingRequest, Table, lookup, erase, put, holders}
use stdiobus_cpp.Async.Table.Laws.{Distinct, bytes_eq_iff, holders-pos_of_lookup}
use stdiobus_cpp.Async.Pending.Timeouts.{live, is_due, is_due-held}
use stdiobus_cpp.Async.Pending.Spec.{Future, unmade, open_under}

pub owner : ℕ → Table → Future
owner p [] = unmade
owner p ((key, r) ∷ t) = if r.promise == p then open_under key r.deadline else owner p t

-- The owner without the entry of one id.
abbrev pub without : Bytes → Future → Future
without id (open_under key d) = if bytes_eq id key then unmade else open_under key d
without id f = f

-- The owner as long as its deadline lies ahead.
abbrev pub ahead : ℤ → Future → Future
ahead now (open_under key d) = if leb_ℤ d now then unmade else open_under key d
ahead now f = f

-- An entry is no result.
pub owner-cases :
    (p : ℕ) (t : Table)
    → (owner p t ≡ unmade) ⊎ ((key : Bytes) × (d : ℤ) × (owner p t ≡ open_under key d))
unfolding owner
owner-cases p [] = inl refl
owner-cases p ((key, r) ∷ t) = elim (Bool-cases (r.promise == p)) [
  | inl e ↦ inr (key, r.deadline, rw e refl)
  | inr e ↦ rw e (owner-cases p t)
]

pub owner_none : (p : ℕ) (t : Table) → holders p t ≡ 0 → owner p t ≡ unmade
unfolding owner holders
owner_none p [] h = refl
owner_none p ((key, r) ∷ t) h = ground (arith, owner_none p t)

pub owner-lookup :
    (p : ℕ) (key : Bytes) (d : ℤ) (t : Table)
    → Distinct t
    → owner p t ≡ open_under key d
    → lookup key t ≡ some (record { promise = p; deadline = d })
unfolding owner lookup
owner-lookup p key d [] u h = cc
owner-lookup p key d ((k, r) ∷ t) u h =
    ground (arith, bytes_eq_iff k key, owner-lookup p key d t u.1)

pub owner_of_lookup :
    (id : Bytes) (r : PendingRequest) (t : Table)
    → holders r.promise t ≤ 1
    → lookup id t ≡ some r
    → owner r.promise t ≡ open_under id r.deadline
unfolding owner lookup holders
owner_of_lookup id r [] u h = cc
owner_of_lookup id r ((k, old) ∷ t) u h =
    ground (arith, bytes_eq_iff k id, owner_of_lookup id r t, holders-pos_of_lookup id t r)

-- A table without the id has no owner under it.
without_absent :
    (p : ℕ) (id : Bytes) (t : Table) → lookup id t ≡ none → without id (owner p t) ≡ owner p t
unfolding owner lookup
without_absent p id [] h = refl
without_absent p id ((k, r) ∷ t) h =
    ground (arith, bytes_eq_iff k id, bytes_eq_iff id k, without_absent p id t)

pub owner-erase :
    (p : ℕ) (id : Bytes) (t : Table)
    → Distinct t
    → holders p t ≤ 1
    → owner p (erase id t) ≡ without id (owner p t)
unfolding owner erase holders
owner-erase p id [] d u = refl
owner-erase p id ((k, r) ∷ t) d u = ground (
  arith,
  bytes_eq_iff k id,
  bytes_eq_iff id k,
  owner-erase p id t d.1,
  owner_none p t,
  without_absent p id t,
)

-- A promise that the table does not hold is held by its entry; the entry of the id is gone.
pub owner-put :
    (p : ℕ) (id : Bytes) (r : PendingRequest) (t : Table)
    → Distinct t
    → holders p t ≤ 1
    → (r.promise ≡ p → holders p t ≡ 0)
    → owner p (put id r t)
      ≡ (if r.promise == p then open_under id r.deadline else without id (owner p t))
unfolding owner put holders
owner-put p id r [] d u f = refl
owner-put p id r ((k, old) ∷ t) d u f = ground (
  arith,
  bytes_eq_iff k id,
  bytes_eq_iff id k,
  owner-put p id r t d.1,
  owner_none p t,
  without_absent p id t,
)

pub owner-live :
    (now : ℤ) (p : ℕ) (t : Table) → holders p t ≤ 1 → owner p (live now t) ≡ ahead now (owner p t)
unfolding owner live holders
owner-live now p [] u = refl
owner-live now p ((k, r) ∷ t) u = ground (arith, owner-live now p t, owner_none p t)

-- Whether the deadline of an owner is reached.
abbrev pub is_over : ℤ → Future → Bool
is_over now (open_under key d) = leb_ℤ d now
is_over now f = false

pub is_due-owner :
    (now : ℤ) (p : ℕ) (t : Table) → holders p t ≤ 1 → is_due now t p ≡ is_over now (owner p t)
unfolding owner is_due holders
is_due-owner now p [] u = refl
is_due-owner now p ((k, r) ∷ t) u =
    ground (arith, is_due-owner now p t, owner_none p t, is_due-held now t p)
