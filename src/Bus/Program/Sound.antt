-- ===== src/Bus/Program/Sound.antt =====
-- The ownership invariant of a program, as a statement about the machine and the variables.
use stdiobus_cpp.Prelude.{ℕ, ◌<◌, ◌≡◌, ◌≢◌, none, some}
use stdiobus_cpp.Embed.Kernel.{Kernel, Contract}
use stdiobus_cpp.Bus.Machine.{Impl, Bus}
use stdiobus_cpp.Bus.Program.{
  Program, Action, construct_at, destruct_at, move_new, move_into, call_at, perform,
}

module _ {K : Kernel} {U : Type 0} (L : Contract K) where
  -- Every pointer in a variable is the only one to a stored Impl, every stored Impl is pointed to,
  -- and an Impl's instance exists with the Impl as its user context.
  pub record IsSound (p : Program K U) : Type 0 where
    pub unique : (i j a : ℕ) → p.slots i ≡ some (some a) → p.slots j ≡ some (some a) → i ≡ j
    pub stored :
        (i a : ℕ) → p.slots i ≡ some (some a) → (impl : Impl U) × (p.machine.heap a ≡ some impl)
    pub pointed :
        (a : ℕ) (impl : Impl U)
        → p.machine.heap a ≡ some impl
        → (i : ℕ) × (p.slots i ≡ some (some a))
    pub below : (a : ℕ) (impl : Impl U) → p.machine.heap a ≡ some impl → a < p.machine.next
    pub opened :
        (a h : ℕ) (impl : Impl U)
        → p.machine.heap a ≡ some impl
        → impl.handle ≡ some h
        → L.context p.machine.world h ≡ some a

  -- Every instance of the kernel is the handle of a stored Impl: nothing leaked.
  abbrev pub NoLeak : Program K U → Type 0
  NoLeak p =
      (h a : ℕ)
      → L.context p.machine.world h ≡ some a
      → (impl : Impl U) × (p.machine.heap a ≡ some impl) × (impl.handle ≡ some h)

-- What the language asks of an action: a variable is constructed outside its lifetime and used
-- inside it.
abbrev pub IsAllowed : {K : Kernel} {U : Type 0} → Action U → Program K U → Type 0
IsAllowed (construct_at i o) p = p.slots i ≡ none
IsAllowed (destruct_at i) p = (bus : Bus) × (p.slots i ≡ some bus)
IsAllowed (move_new i j) p = (p.slots i ≡ none) × ((bus : Bus) × (p.slots j ≡ some bus))
IsAllowed (move_into i j) p =
    ((bus : Bus) × (p.slots i ≡ some bus)) × ((bus : Bus) × (p.slots j ≡ some bus))
IsAllowed (call_at i c) p = (bus : Bus) × (p.slots i ≡ some bus)

-- What a move assignment must not overwrite: an Impl with an instance.
abbrev pub Overwritable : {K : Kernel} {U : Type 0} → ℕ → ℕ → Program K U → Type 0
Overwritable {U} i j p =
    i ≢ j
    → (a : ℕ) (impl : Impl U) → p.slots i ≡ some (some a)
    → p.machine.heap a ≡ some impl
    → impl.handle ≡ none

-- A move assignment onto a Bus that has an instance is the one action that may leak.
abbrev pub IsTidy : {K : Kernel} {U : Type 0} → Action U → Program K U → Type 0
IsTidy (move_into i j) p = Overwritable i j p
IsTidy _ p = Unit {0}

module _ {K : Kernel} {U : Type 0} (L : Contract K) where
  -- The action is defined, and keeps the program sound; if it does not overwrite a Bus that has an
  -- instance, it leaks nothing either.
  abbrev pub Good : Action U → Program K U → Type 0 → Type 0
  Good action p tidy =
      (q : Program K U) × (perform K action p ≡ some q)
      × IsSound L q
      × (tidy → NoLeak L p → NoLeak L q)
