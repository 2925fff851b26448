-- ===== src/Bus/Program/Moves.antt =====
-- A pointer goes from one variable to another.
use stdiobus_cpp.Prelude.{ℕ, ◌≡◌, ◌≢◌, none, some, arith, ◌==◌, if◌then◌else◌, Bool-cases, inl, inr}
use stdiobus_cpp.Embed.Kernel.{Kernel, Contract}
use stdiobus_cpp.Bus.Machine.{Bus, update}
use stdiobus_cpp.Bus.Program.{Program}
use stdiobus_cpp.Bus.Program.Sound.{IsSound}
use stdiobus_cpp.Bus.Program.Release.{IsVacant}

module _ {K : Kernel} {U : Type 0} (L : Contract K) (i j : ℕ) (other : Bus) (p : Program K U)
    (v : IsSound L p) (vacant : IsVacant (p.slots i)) (source : p.slots j ≡ some other)
    (differ : i ≢ j) where
  abbrev pub moved : Program K U
  moved = record p { slots = update (update p.slots i (some other)) j (some none) }

  -- Where a pointer of the moved program came from.
  from : ℕ → ℕ
  from k = if i == k then j else k

  moved_slot :
      (k b : ℕ) → moved.slots k ≡ some (some b) → (p.slots (from k) ≡ some (some b)) × (k ≢ j)
  unfolding from
  moved_slot k b e = ground arith

  moved_unique : (k l b : ℕ) → moved.slots k ≡ some (some b) → moved.slots l ≡ some (some b) → k ≡ l
  unfolding from
  moved_unique k l b e f =
      ground (arith, v.unique (from k) (from l) b, moved_slot k b e, moved_slot l b f)

  moved_pointed : (b k : ℕ) → p.slots k ≡ some (some b) → (l : ℕ) × (moved.slots l ≡ some (some b))
  moved_pointed b k e = elim (Bool-cases (k == j)) [
    | inl x ↦ (i, ground arith)
    | inr x ↦ (k, ground (arith, vacant b))
  ]

  pub moved-IsSound : IsSound L moved
  moved-IsSound = record {
    unique = moved_unique;
    stored = λ k b e. v.stored (from k) b (moved_slot k b e).0;
    pointed = λ b impl e. let (k, s) = v.pointed b impl e in moved_pointed b k s;
    below = v.below;
    opened = v.opened;
  }
