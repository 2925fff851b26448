-- ===== src/Async/Client/Pump.antt =====
-- AsyncBus::pump, with the responses that the kernel delivers meanwhile.
use stdiobus_cpp.Prelude.{ℕ, ◌≡◌, refl, some, []}
use stdiobus_cpp.Prelude.Int.{ℤ, to_int}
use stdiobus_cpp.Embed.Kernel.{Kernel, Contract}
use stdiobus_cpp.Types.{Options}
use stdiobus_cpp.Bus.Machine.{Machine}
use stdiobus_cpp.Bus.Delivery.{after}
use stdiobus_cpp.Bus.Behaviour.{Owns, owned_operations, owned_after}
use stdiobus_cpp.Async.Pending.Spec
use stdiobus_cpp.Async.Pending.Spec.{Futures}
use stdiobus_cpp.Async.Client.{Client, pump}
use stdiobus_cpp.Async.Client.Hooked.{hooked, Holds}
use stdiobus_cpp.Async.Client.Events.{Shows, responses, deliver-Shows}

module _ {K : Kernel} {A : Type 0} (L : Contract K) where
  -- The futures after a pump are those of the specification after the responses that the kernel
  -- passes on; the Bus keeps its instance, and pump returns the number that the kernel gives.
  pub pump-Shows :
      (o : Options A) {s : Machine K (Client A)} {a h : ℕ} (v : Futures) (timeout : ℤ)
      → Owns L s a h (record { handle = some h; options = hooked o })
      → Holds (Shows v) s.user
      → (t : Machine K (Client A)) × (pump K (some a) timeout s
          ≡ some ((K.step h (to_int timeout) s.world).result, t))
        × Owns L t a h (record { handle = some h; options = hooked o })
        × (t.world ≡ (K.step h (to_int timeout) s.world).world)
        × Holds
            (Shows (Spec.run (responses (K.step h (to_int timeout) s.world).callbacks) v))
            t.user
  unfolding pump
  pump-Shows o {s} {a} {h} v timeout own k = (
    after s (record { handle = some h; options = hooked o }) (K.step h (to_int timeout)),
    (owned_operations L own timeout []).3,
    owned_after L own (K.step h (to_int timeout)) (L.step_keeps h (to_int timeout)),
    refl,
    deliver-Shows (K.step h (to_int timeout) s.world).callbacks o (some h) v s.user k,
  )
