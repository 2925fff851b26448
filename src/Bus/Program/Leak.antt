-- ===== src/Bus/Program/Leak.antt =====
-- Move assignment onto a Bus that has an instance: operator= calls neither stdio_bus_stop nor
-- stdio_bus_destroy.
use stdiobus_cpp.Prelude.{ℕ, ◌≡◌, ◌≢◌, none, some, ==_ne, refl, arith}
use stdiobus_cpp.Embed.Kernel.{Kernel, Contract}
use stdiobus_cpp.Bus.Machine.{Impl, Bus, update, ◌>>=◌, free}
use stdiobus_cpp.Bus.Behaviour.{Owns}
use stdiobus_cpp.Bus.Lifetime.{move_assign, reset}
use stdiobus_cpp.Bus.Lifecycle.{deref-eq}
use stdiobus_cpp.Bus.Program.{Program, move_into, perform}
use stdiobus_cpp.Bus.Program.Sound.{IsSound}

-- In every sound program, assigning to a variable whose Bus owns an instance leaves that instance in
-- the kernel, with a user context that points to freed memory, and no Impl is left that holds it:
-- it can never be stopped or destroyed again.
pub move_into_leaks :
    {K : Kernel} {U : Type 0} (L : Contract K) (i j a h : ℕ) (impl : Impl U) (other : Bus)
    (p : Program K U)
    → IsSound L p
    → p.slots i ≡ some (some a)
    → p.slots j ≡ some other
    → i ≢ j
    → Owns L p.machine a h impl
    → (q : Program K U) × (perform K (move_into i j) p ≡ some q)
      × (L.context q.machine.world h ≡ some a)
      × (q.machine.heap a ≡ none)
      × ((b : ℕ) (held : Impl U) → q.machine.heap b ≡ some held → held.handle ≢ some h)
unfolding perform free
move_into_leaks {K} {U} L i j a h impl other p v e f differ o = (
  record {
    machine = record (p.machine) { heap = update p.machine.heap a none };
    slots = update (update p.slots i (some other)) j (some none);
  },
  rw
      (
        e,
        perform,
        f,
        ==_ne i j differ,
        move_assign,
        reset,
        ◌>>=◌,
        deref-eq p.machine a impl o.stored,
      )
      refl,
  o.context,
  ground arith,
  λ b held g x. ground (arith, v.opened b h held, o.context),
)
