-- ===== src/Bus/Program/Release.antt =====
-- A variable gives up its Impl: the destructor, and the reset in a move assignment.
use stdiobus_cpp.Prelude.{
  ℕ, ◌≡◌, ◌≢◌, refl, sym, ◌∙◌, Option, none, some, arith, ◌==◌, if◌then◌else◌, Bool-cases, inl, inr,
}
use stdiobus_cpp.Prelude.Int.{pos}
use stdiobus_cpp.Embed.Kernel.{Kernel, Contract}
use stdiobus_cpp.Bus.Machine.{Impl, Bus, Machine, update}
use stdiobus_cpp.Bus.Behaviour.{Owns}
use stdiobus_cpp.Bus.Lifetime.{needs_stop}
use stdiobus_cpp.Bus.Lifecycle.{destroyed, stopped}
use stdiobus_cpp.Bus.Program.{Program}
use stdiobus_cpp.Bus.Program.Sound.{IsSound}

-- No Impl is pointed to: the variable is outside its lifetime, or null.
abbrev pub IsVacant : Option Bus → Type 0
IsVacant x = (b : ℕ) → x ≢ some (some b)

pub none-IsVacant : IsVacant none
none-IsVacant b e = cc

pub null-IsVacant : IsVacant (some none)
null-IsVacant b e = cc

pub IsVacant-eq : (x y : Option Bus) → x ≡ y → IsVacant y → IsVacant x
IsVacant-eq x y e w b f = w b (sym e ∙ f)

module _ {K : Kernel} {U : Type 0} (L : Contract K) (i a : ℕ) (x : Option Bus) (vacant : IsVacant x)
    (p : Program K U) (v : IsSound L p) (held : p.slots i ≡ some (some a)) (m : Machine K U)
    (heap : (b : ℕ) → m.heap b ≡ (if a == b then none else p.machine.heap b))
    (next : m.next ≡ p.machine.next)
    (context : (h b : ℕ)
      → a ≢ b
      → L.context p.machine.world h ≡ some b
      → L.context m.world h ≡ some b) where
  abbrev pub released : Program K U
  released = record { machine = m; slots = update p.slots i x }

  released_slot :
      (k b : ℕ) → released.slots k ≡ some (some b) → (p.slots k ≡ some (some b)) × (a ≢ b)
  released_slot k b e = ground (arith, vacant b, v.unique i k a)

  released_heap :
      (b : ℕ) (impl : Impl U) → m.heap b ≡ some impl → (p.machine.heap b ≡ some impl) × (a ≢ b)
  released_heap b impl e = ground (arith, heap b)

  pub released-IsSound : IsSound L released
  released-IsSound = record {
    unique = λ j k b e f. v.unique j k b (released_slot j b e).0 (released_slot k b f).0;
    stored = λ k b e.
        let (s, ne) = released_slot k b e in
        let (impl, f) = v.stored k b s in (impl, ground (arith, heap b));
    pointed = λ b impl e.
        let (f, ne) = released_heap b impl e in
        let (k, s) = v.pointed b impl f in (k, ground arith);
    below = λ b impl e. ground (arith, v.below b impl (released_heap b impl e).0);
    opened = λ b h impl e f.
        let (g, ne) = released_heap b impl e in context h b ne (v.opened b h impl g f);
  }

module _ {K : Kernel} {U : Type 0} (L : Contract K) (s : Machine K U) (a h : ℕ) (impl : Impl U)
    (o : Owns L s a h impl) where
  stopped_context : (j : ℕ) → L.context (stopped L s h impl).world j ≡ L.context s.world j
  stopped_context j = elim (Bool-cases (needs_stop (K.get_state h s.world))) [
    | inl e ↦ rw e ((L.stop_keeps h (pos 5)).same s.world j)
    | inr e ↦ rw e refl
  ]

  -- The destructor ends the instance h, and no other.
  pub destroyed_context :
      (j : ℕ)
      → L.context (destroyed L s a h impl).world j ≡ (if h == j then none else L.context s.world j)
  destroyed_context j =
      ground (arith, L.destroy_context h (stopped L s h impl).world j, stopped_context j)

  stopped_heap : (b : ℕ) → (stopped L s h impl).heap b ≡ s.heap b
  stopped_heap b = elim (Bool-cases (needs_stop (K.get_state h s.world))) [
    | inl e ↦ rw e refl
    | inr e ↦ rw e refl
  ]

  pub destroyed_heap :
      (b : ℕ) → (destroyed L s a h impl).heap b ≡ (if a == b then none else s.heap b)
  destroyed_heap b = ground (arith, stopped_heap b)

  pub destroyed_next : (destroyed L s a h impl).next ≡ s.next
  destroyed_next = elim (Bool-cases (needs_stop (K.get_state h s.world))) [
    | inl e ↦ rw e refl
    | inr e ↦ rw e refl
  ]

module _ {K : Kernel} {U : Type 0} (L : Contract K) (i : ℕ) (x : Option Bus) (vacant : IsVacant x)
    (p : Program K U) (v : IsSound L p) (null : IsVacant (p.slots i)) where
  abbrev pub cleared : Program K U
  cleared = record p { slots = update p.slots i x }

  cleared_slot : (k b : ℕ) → cleared.slots k ≡ some (some b) → p.slots k ≡ some (some b)
  cleared_slot k b e = ground (arith, vacant b)

  -- A variable that points to nothing may end its lifetime.
  pub cleared-IsSound : IsSound L cleared
  cleared-IsSound = record {
    unique = λ j k b e f. v.unique j k b (cleared_slot j b e) (cleared_slot k b f);
    stored = λ k b e. v.stored k b (cleared_slot k b e);
    pointed = λ b impl e. let (k, s) = v.pointed b impl e in (k, ground (arith, null b));
    below = v.below;
    opened = v.opened;
  }
