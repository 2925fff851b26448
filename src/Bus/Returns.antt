-- ===== src/Bus/Returns.antt =====
-- Code on one Bus that is safe and gives a result with a property.
use stdiobus_cpp.Prelude.{ℕ, ◌≡◌, refl, Bool, true, false, some, if◌then◌else◌}
use stdiobus_cpp.Embed.Kernel.{Kernel, Contract}
use stdiobus_cpp.Bus.Machine.{Machine, M, ◌>>=◌, ◌>>◌, pure}
use stdiobus_cpp.Bus.Program.Operations.{Kept, Kept-refl}
use stdiobus_cpp.Bus.Safe.{Stored, Kept-Stored, Kept-trans, Safe}

module _ {K : Kernel} {U : Type 0} (L : Contract K) (a : ℕ) where
  abbrev pub Returns : {B : Type 0} → (B → Type 0) → M K U B → Type 0
  Returns {B} P m =
      (s : Machine K U)
      → Stored L a s
      → (r : B) × (t : Machine K U) × (m s ≡ some (r, t)) × Kept L s t × P r

  pub Returns-pure : {B : Type 0} {P : B → Type 0} (b : B) → P b → Returns P (pure b)
  Returns-pure b x s v = (b, s, refl, Kept-refl L s, x)

  -- What comes first may give anything.
  pub Returns-bind :
      {B C : Type 0} {P : C → Type 0} {m : M K U B} {f : B → M K U C}
      → Safe L a m
      → ((b : B) → Returns P (f b))
      → Returns P (m >>= f)
  Returns-bind {m = m} {f = f} safe rest s v =
      let (b, t, e, k) = safe s v in
      let (c, u, e', k', x) = rest b t (Kept-Stored L k v) in
      (c, u, rw (e, ◌>>=◌) e', Kept-trans L k k', x)

  pub Returns-then :
      {C : Type 0} {P : C → Type 0} {m : M K U (Unit {0})} {n : M K U C}
      → Safe L a m
      → Returns P n
      → Returns P (m >> n)
  Returns-then {m = m} {n = n} x y = Returns-bind {m = m} {f = λ _. n} x (λ _. y)

  -- What comes first gives a result with a property.
  pub Returns-after :
      {B C : Type 0} {Q : B → Type 0} {P : C → Type 0} {m : M K U B} {f : B → M K U C}
      → Returns Q m
      → ((b : B) → Q b → Returns P (f b))
      → Returns P (m >>= f)
  Returns-after {m = m} {f = f} first rest s v =
      let (b, t, e, k, x) = first s v in
      let (c, u, e', k', y) = rest b x t (Kept-Stored L k v) in
      (c, u, rw (e, ◌>>=◌) e', Kept-trans L k k', y)

  pub Returns-if :
      {B : Type 0} {P : B → Type 0} (test : Bool) {m n : M K U B}
      → (test ≡ true → Returns P m)
      → (test ≡ false → Returns P n)
      → Returns P (if test then m else n)
  Returns-if true x y = x refl
  Returns-if false x y = y refl

  pub Returns-weaken :
      {B : Type 0} {P Q : B → Type 0} {m : M K U B}
      → ((b : B) → P b → Q b)
      → Returns P m
      → Returns Q m
  Returns-weaken f x s v = let (b, t, e, k, y) = x s v in (b, t, e, k, f b y)
