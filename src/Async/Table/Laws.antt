-- ===== src/Async/Table/Laws.antt =====
-- Laws of the table of pending requests.
use stdiobus_cpp.Prelude.{
  ℕ, ◌+◌, ◌≡◌, refl, ◌↔◌, true, Option, none, some, [], ◌∷◌, Bytes, bytes_eq, arith, ◌<◌, ◌==◌,
  if◌then◌else◌,
}
use stdiobus_cpp.Async.Table.{PendingRequest, Table, lookup, erase, put, holders}

pub bytes_eq_refl : (s : Bytes) → bytes_eq s s ≡ true
unfolding bytes_eq
bytes_eq_refl [] = refl
bytes_eq_refl (c ∷ s) = ground (arith, bytes_eq_refl s)

pub bytes_eq_eq : (s t : Bytes) → bytes_eq s t ≡ true → s ≡ t
unfolding bytes_eq
bytes_eq_eq [] [] h = refl
bytes_eq_eq [] (d ∷ t) h = cc
bytes_eq_eq (c ∷ s) [] h = cc
bytes_eq_eq (c ∷ s) (d ∷ t) h = ground (arith, bytes_eq_eq s t)

pub bytes_eq_iff : (s t : Bytes) → (bytes_eq s t ≡ true) ↔ (s ≡ t)
bytes_eq_iff s t = (bytes_eq_eq s t, λ e. rw (← e) (bytes_eq_refl s))

-- 1 for the promise p of a request, 0 for another.
abbrev pub one_at : ℕ → ℕ → ℕ
one_at q p = if q == p then 1 else 0

abbrev pub held_by : Option PendingRequest → ℕ → ℕ
held_by none p = 0
held_by (some r) p = one_at r.promise p

pub holders-erase :
    (p : ℕ) (id : Bytes) (t : Table)
    → holders p (erase id t) + held_by (lookup id t) p ≡ holders p t
unfolding holders erase lookup
holders-erase p id [] = omega arith
holders-erase p id ((key, r) ∷ t) = ground (arith, holders-erase p id t)

pub holders-put :
    (p : ℕ) (id : Bytes) (r : PendingRequest) (t : Table)
    → holders p (put id r t) + held_by (lookup id t) p ≡ holders p t + one_at r.promise p
unfolding holders put lookup
holders-put p id r [] = ground arith
holders-put p id r ((key, old) ∷ t) = ground (arith, holders-put p id r t)

-- No key stands twice.
abbrev pub Distinct : Table → Type 0
Distinct [] = Unit {0}
Distinct ((key, r) ∷ t) = (lookup key t ≡ none) × Distinct t

pub lookup-put :
    (id key : Bytes) (r : PendingRequest) (t : Table)
    → lookup key (put id r t) ≡ (if bytes_eq id key then some r else lookup key t)
unfolding put lookup
lookup-put id key r [] = refl
lookup-put id key r ((k, old) ∷ t) =
    ground
      (arith, bytes_eq_iff k id, bytes_eq_iff k key, bytes_eq_iff id key, lookup-put id key r t)

pub lookup-erase :
    (id key : Bytes) (t : Table)
    → Distinct t
    → lookup key (erase id t) ≡ (if bytes_eq id key then none else lookup key t)
unfolding erase lookup
lookup-erase id key [] d = ground arith
lookup-erase id key ((k, old) ∷ t) d =
    ground
      (arith, bytes_eq_iff k id, bytes_eq_iff k key, bytes_eq_iff id key, lookup-erase id key t d.1)

pub put-Distinct :
    (id : Bytes) (r : PendingRequest) (t : Table) → Distinct t → Distinct (put id r t)
unfolding put lookup
put-Distinct id r [] d = (refl, tt)
put-Distinct id r ((k, old) ∷ t) d =
    ground
      (arith, bytes_eq_iff id k, bytes_eq_iff k id, lookup-put id k r t, put-Distinct id r t d.1)

pub erase-Distinct : (id : Bytes) (t : Table) → Distinct t → Distinct (erase id t)
unfolding erase lookup
erase-Distinct id [] d = tt
erase-Distinct id ((k, old) ∷ t) d =
    ground (
      arith,
      bytes_eq_iff k id,
      bytes_eq_iff id k,
      lookup-erase id k t d.1,
      erase-Distinct id t d.1,
    )

pub holders-pos_of_lookup :
    (id : Bytes) (t : Table) (r : PendingRequest) → lookup id t ≡ some r → 0 < holders r.promise t
unfolding lookup holders
holders-pos_of_lookup id [] r h = cc
holders-pos_of_lookup id ((k, old) ∷ t) r h = ground (arith, holders-pos_of_lookup id t r)
