-- ===== src/Bus/Program/Construct.antt =====
-- The constructor as an action of a program.
use stdiobus_cpp.Prelude.{
  ℕ, ◌<◌, ◌≡◌, ◌≢◌, sym, ◌∙◌, none, some, arith, ◌==◌, Bool-cases, inl, inr, Option-cases,
}
use stdiobus_cpp.Embed.{COptions}
use stdiobus_cpp.Embed.Kernel.{Kernel, Contract}
use stdiobus_cpp.Types.{Options}
use stdiobus_cpp.Bus.Machine.{Impl, update}
use stdiobus_cpp.Bus.Lifecycle.{built}
use stdiobus_cpp.Bus.Lifetime.{c_options}
use stdiobus_cpp.Bus.Program.{Program}
use stdiobus_cpp.Bus.Program.Sound.{IsSound, NoLeak}

-- A create leaves the instances that there are.
create_keeps :
    {K : Kernel} (L : Contract K) (c : COptions) (w : K.World) (j a : ℕ)
    → L.context w j ≡ some a
    → L.context (K.create c w).world j ≡ some a
create_keeps {K} L c w j a e = elim (Option-cases (K.create c w).result) [
  | inl f ↦ L.create_null c w f j ∙ e
  | inr (h, f) ↦ ground (arith, L.create_context c w h f j, L.create_fresh c w h f)
]

module _ {K : Kernel} {U : Type 0} (L : Contract K) (i : ℕ) (o : Options U) (p : Program K U)
    (v : IsSound L p) (free : p.slots i ≡ none) where
  abbrev pub constructed : Program K U
  constructed = record {
    machine = built o p.machine;
    slots = update p.slots i (some (some p.machine.next));
  }

  constructed_stored :
      (k a : ℕ)
      → constructed.slots k ≡ some (some a)
      → (impl : Impl U) × (constructed.machine.heap a ≡ some impl)
  constructed_stored k a e = elim (Bool-cases (p.machine.next == a)) [
    | inl x ↦ (
      record {
        handle = (K.create (c_options o p.machine.next) p.machine.world).result;
        options = o;
      },
      ground arith,
    )
    | inr x ↦
        let s : p.slots k ≡ some (some a) = ground arith in
        let (impl, f) = v.stored k a s in (impl, ground arith)
  ]

  not_next : (k : ℕ) → p.slots k ≢ some (some p.machine.next)
  not_next k e =
      let (impl, f) = v.stored k p.machine.next e in
      let lt : p.machine.next < p.machine.next = v.below p.machine.next impl f in
      absurd (omega arith)

  constructed_unique :
      (j k a : ℕ)
      → constructed.slots j ≡ some (some a)
      → constructed.slots k ≡ some (some a)
      → j ≡ k
  constructed_unique j k a e f = ground (arith, v.unique j k a, not_next j, not_next k)

  constructed_pointed :
      (a : ℕ) (impl : Impl U)
      → constructed.machine.heap a ≡ some impl
      → (k : ℕ) × (constructed.slots k ≡ some (some a))
  constructed_pointed a impl e = elim (Bool-cases (p.machine.next == a)) [
    | inl x ↦ (i, ground arith)
    | inr x ↦
        let s : p.machine.heap a ≡ some impl = ground arith in
        let (k, f) = v.pointed a impl s in (k, ground arith)
  ]

  constructed_opened :
      (a h : ℕ) (impl : Impl U)
      → constructed.machine.heap a ≡ some impl
      → impl.handle ≡ some h
      → L.context constructed.machine.world h ≡ some a
  unfolding c_options
  constructed_opened a h impl e f = elim (Bool-cases (p.machine.next == a)) [
    | inl x ↦
        let r : (K.create (c_options o p.machine.next) p.machine.world).result ≡ some h =
          ground arith in
        ground (arith, L.create_context (c_options o p.machine.next) p.machine.world h r h)
    | inr x ↦
        let s : p.machine.heap a ≡ some impl = ground arith in
        create_keeps L (c_options o p.machine.next) p.machine.world h a (v.opened a h impl s f)
  ]

  pub constructed-IsSound : IsSound L constructed
  constructed-IsSound = record {
    unique = constructed_unique;
    stored = constructed_stored;
    pointed = constructed_pointed;
    below = λ a impl e. ground (arith, v.below a impl);
    opened = constructed_opened;
  }

  constructed_old :
      NoLeak L p
      → (h a : ℕ) → L.context p.machine.world h ≡ some a
      → (impl : Impl U) × (constructed.machine.heap a ≡ some impl) × (impl.handle ≡ some h)
  constructed_old n h a e =
      let (impl, f, g) = n h a e in (impl, ground (arith, v.below a impl f), g)

  -- A new instance is held by the new Impl.
  pub constructed-NoLeak : NoLeak L p → NoLeak L constructed
  unfolding c_options
  constructed-NoLeak n h a e =
      let c = c_options o p.machine.next in
      let w = p.machine.world in
      elim (Option-cases (K.create c w).result) [
        | inl f ↦
            let old : L.context w h ≡ some a = sym (L.create_null c w f h) ∙ e in
            constructed_old n h a old
        | inr (h', f) ↦ (elim (Bool-cases (h' == h)) [
          | inl x ↦ (
            record { handle = (K.create c w).result; options = o },
            ground (arith, L.create_context c w h' f h),
            ground arith,
          )
          | inr x ↦
              let old : L.context w h ≡ some a = ground (arith, L.create_context c w h' f h) in
              constructed_old n h a old
        ])
      ]
