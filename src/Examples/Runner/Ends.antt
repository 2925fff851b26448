-- ===== src/Examples/Runner/Ends.antt =====
-- runner.cpp from its start to its end.
use stdiobus_cpp.Prelude.{ℕ, ◌≡◌, Bool, true, false, Option, some, List, [], ◌∷◌, if◌then◌else◌}
use stdiobus_cpp.Error.{Error}
use stdiobus_cpp.Embed.Kernel.{Kernel, Contract}
use stdiobus_cpp.Bus.Machine.{Machine, M}
use stdiobus_cpp.Bus.Safe.{Safe}
use stdiobus_cpp.Bus.Returns.{Returns}
use stdiobus_cpp.Examples.Console.{Console}

-- A signal comes in at some time.
unfoldable pub is_signalled : List Bool → Bool
is_signalled [] = false
is_signalled (signal ∷ signals) = if signal then true else is_signalled signals

abbrev Ends : Bool → Option ℕ → Type 0
Ends signalled result = signalled ≡ true → (code : ℕ) × (result ≡ some code)

module _ (K : Kernel) (L : Contract K) where
  -- The code runs, ends once a signal comes in, and leaves the kernel its instances.
  abbrev Completes : Bool → M K Console (Option ℕ) → Machine K Console → Type 0
  Completes signalled code s =
      (r : Option ℕ) × (t : Machine K Console) × (code s ≡ some (r, t))
      × Ends signalled r
      × ((n : ℕ) → r ≡ some n → (j : ℕ) → L.context t.world j ≡ L.context s.world j)
