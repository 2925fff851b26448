-- ===== src/Bus/Reentrant/Interface.antt =====
-- The functions of stdio_bus_embed.h, given step by step: what the SDK relies on.
use stdiobus_cpp.Prelude.{ℕ, ◌≡◌, Option, some, Bytes}
use stdiobus_cpp.Prelude.Int.{ℤ}
use stdiobus_cpp.Bus.Reentrant.{Course, returns, calls, Kernel}

-- Every callback of the call carries the user data, and the call keeps `P` of the kernel's state if
-- its callbacks do.
abbrev pub Keeps : {W A : Type 0} → ℕ → (W → Type 0) → Course W A → Type 0
Keeps user_data P (returns a w) = P w
Keeps {W} user_data P (calls c w rest) =
    (c.user_data ≡ user_data) × P w × ((v : W) → P v → Keeps user_data P (rest v))

-- What the header says of the kernel's calls on an instance: they create and destroy none, and their
-- callbacks carry the user context that it was created with. `context w h` is the context of the
-- instance `h`.
pub record Contract (K : Kernel) : Type 0 where
  pub context : K.World → ℕ → Option ℕ
  pub start :
      (h u : ℕ) (w : K.World)
      → context w h ≡ some u
      → Keeps u (λ v. context v h ≡ some u) (K.start h w)
  pub step :
      (h u : ℕ) (n : ℤ) (w : K.World)
      → context w h ≡ some u
      → Keeps u (λ v. context v h ≡ some u) (K.step h n w)
  pub stop :
      (h u : ℕ) (n : ℤ) (w : K.World)
      → context w h ≡ some u
      → Keeps u (λ v. context v h ≡ some u) (K.stop h n w)
  pub ingest :
      (h u : ℕ) (m : Bytes) (w : K.World)
      → context w h ≡ some u
      → Keeps u (λ v. context v h ≡ some u) (K.ingest h m w)
