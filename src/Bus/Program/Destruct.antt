-- ===== src/Bus/Program/Destruct.antt =====
-- The destructor as an action of a program.
use stdiobus_cpp.Prelude.{ℕ, ◌≡◌, ◌≢◌, refl, Option, none, some, arith, inl, inr, Option-cases}
use stdiobus_cpp.Embed.Kernel.{Kernel, Contract}
use stdiobus_cpp.Bus.Machine.{Impl, Bus, update}
use stdiobus_cpp.Bus.Behaviour.{Owns}
use stdiobus_cpp.Bus.Lifetime.{destruct}
use stdiobus_cpp.Bus.Lifecycle.{destruct-eq, destruct-no_instance, destroyed}
use stdiobus_cpp.Bus.Program.{Program, destruct_at, perform}
use stdiobus_cpp.Bus.Program.Sound.{IsSound, NoLeak, Good}
use stdiobus_cpp.Bus.Program.Release.{
  released-IsSound, destroyed_context, destroyed_heap, destroyed_next, cleared, none-IsVacant,
  null-IsVacant, IsVacant-eq, cleared-IsSound,
}

module _ {K : Kernel} {U : Type 0} (L : Contract K) where
  pub good_destruct_null :
      (i : ℕ) (p : Program K U)
      → IsSound L p
      → p.slots i ≡ some none
      → Good L (destruct_at i) p (Unit {0})
  unfolding perform
  good_destruct_null i p v e = (
    cleared L i none none-IsVacant p v (IsVacant-eq _ _ e null-IsVacant),
    rw (e, perform, destruct) refl,
    cleared-IsSound L i none none-IsVacant p v (IsVacant-eq _ _ e null-IsVacant),
    λ _ n. n,
  )

  -- An Impl with no instance is given up.
  pub freed_NoLeak :
      (p : Program K U) (a : ℕ) (impl : Impl U) (slots : ℕ → Option Bus)
      → p.machine.heap a ≡ some impl
      → impl.handle ≡ none
      → NoLeak L p
      → NoLeak L (record {
        machine = record (p.machine) { heap = update p.machine.heap a none };
        slots = slots;
      })
  freed_NoLeak p a impl slots f g n h b e =
      let (impl', f', g') = n h b e in (impl', ground arith, g')

  pub good_destruct_closed :
      (i a : ℕ) (impl : Impl U) (p : Program K U)
      → IsSound L p
      → p.slots i ≡ some (some a)
      → p.machine.heap a ≡ some impl
      → impl.handle ≡ none
      → Good L (destruct_at i) p (Unit {0})
  unfolding perform
  good_destruct_closed i a impl p v e f g = (
    record {
      machine = record (p.machine) { heap = update p.machine.heap a none };
      slots = update p.slots i none;
    },
    rw (e, perform, destruct-no_instance L p.machine a impl f g) refl,
    released-IsSound L i a none none-IsVacant p v e
        (record (p.machine) { heap = update p.machine.heap a none }) (λ b. refl) refl
        (λ h b ne c. c),
    λ _. freed_NoLeak p a impl (update p.slots i none) f g,
  )

  destroyed-NoLeak :
      (i a h : ℕ) (impl : Impl U) (p : Program K U)
      → Owns L p.machine a h impl
      → NoLeak L p
      → NoLeak L
          (record { machine = destroyed L p.machine a h impl; slots = update p.slots i none })
  destroyed-NoLeak i a h impl p o n j b e =
      let old : L.context p.machine.world j ≡ some b =
        ground (arith, destroyed_context L p.machine a h impl o j) in
      let other : h ≢ j = λ x. ground (arith, destroyed_context L p.machine a h impl o j) in
      let (impl', f, g) = n j b old in
      (impl', ground (arith, o.stored, o.handle, destroyed_heap L p.machine a h impl o b), g)

  pub good_destruct_open :
      (i a h : ℕ) (impl : Impl U) (p : Program K U)
      → IsSound L p
      → p.slots i ≡ some (some a)
      → Owns L p.machine a h impl
      → Good L (destruct_at i) p (Unit {0})
  unfolding perform
  good_destruct_open i a h impl p v e o = (
    record { machine = destroyed L p.machine a h impl; slots = update p.slots i none },
    rw (e, perform, destruct-eq L o) refl,
    released-IsSound L i a none none-IsVacant p v e (destroyed L p.machine a h impl)
        (destroyed_heap L p.machine a h impl o) (destroyed_next L p.machine a h impl o)
        (λ j b ne c. ground (arith, o.context, destroyed_context L p.machine a h impl o j)),
    λ _. destroyed-NoLeak i a h impl p o,
  )

  pub good_destruct :
      (i : ℕ) (p : Program K U) (bus : Bus)
      → IsSound L p
      → p.slots i ≡ some bus
      → Good L (destruct_at i) p (Unit {0})
  good_destruct i p none v e = good_destruct_null i p v e
  good_destruct i p (some a) v e =
      let (impl, f) = v.stored i a e in
      elim (Option-cases impl.handle) [
        | inl g ↦ good_destruct_closed i a impl p v e f g
        | inr (h, g) ↦
            good_destruct_open i a h impl p v e
              (record { stored = f; handle = g; context = v.opened a h impl f g })
      ]
