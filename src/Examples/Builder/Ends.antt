-- ===== src/Examples/Builder/Ends.antt =====
-- builder.cpp from its start to its end.
use stdiobus_cpp.Prelude.{ℕ, zero, suc, subst, ◌≡◌, refl, Option, some, List, Bytes, codes, ◌++◌}
use stdiobus_cpp.Prelude.Int.{pos}
use stdiobus_cpp.Error.{is_error, message}
use stdiobus_cpp.Embed.Kernel.{Kernel, Contract}
use stdiobus_cpp.Bus.Machine.{Machine}
use stdiobus_cpp.Bus.Builder.{build}
use stdiobus_cpp.Bus.Calls.{is_valid}
use stdiobus_cpp.Bus.Safe.{Safe, Safe-pure, Safe-bind, Safe-start, Safe-step, Safe-stop, Safe-send}
use stdiobus_cpp.Bus.Returns.{Returns, Returns-pure, Returns-bind, Returns-then, Returns-if}
use stdiobus_cpp.Bus.Scope.{scoped_lem}
use stdiobus_cpp.Examples.Basic.{path_argument}
use stdiobus_cpp.Examples.Console.{Console, err, Safe-print}
use stdiobus_cpp.Examples.Builder.{rounds, body, main, configured, ping}

abbrev Ended : Option ℕ → Type 0
Ended result = (code : ℕ) × (result ≡ some code)

module _ {K : Kernel} (L : Contract K) (a : ℕ) where
  Safe-rounds : (n : ℕ) → Safe L a (rounds K n (some a))
  unfolding rounds
  Safe-rounds zero = Safe-pure L a tt
  Safe-rounds (suc n) = Safe-bind L a (Safe-step L a (pos 100)) (λ events. Safe-rounds n)

  body-Returns : Returns L a Ended (body K (some a))
  unfolding body is_valid
  body-Returns = Returns-bind L a (Safe-start L a) (λ error.
      Returns-if L a (is_error error)
        (λ _.
          Returns-then L a (Safe-print L a (err (codes "Start failed: " ++ message error)))
            (Returns-pure L a (some 1) (1, refl)))
        (λ _. Returns-bind L a (Safe-send L a ping) (λ sent. Returns-then L a (Safe-rounds 20) (
          Returns-bind L a (Safe-stop L a (pos 5))
            (λ stopped. Returns-pure L a (some 0) (0, refl))))))

-- builder.cpp on any kernel ends with an exit code, and then the kernel has the instances that it
-- had before.
pub builder_main-ends :
    (K : Kernel) (L : Contract K) (argv : List Bytes) (s : Machine K Console)
    → (code : ℕ) × (t : Machine K Console) × (main K argv s ≡ some (some code, t))
      × ((j : ℕ) → L.context t.world j ≡ L.context s.world j)
unfolding main build
builder_main-ends K L argv s =
    let (r, t, e, (code, f), same) =
      scoped_lem L Ended (configured (path_argument argv)) (body K) s (body-Returns L) in
    (code, t, subst (λ x. main K argv s ≡ some (x, t)) f e, same code f)
