-- ===== src/Bus/Lifecycle.antt =====
-- What construction and destruction do to the machine, under the kernel's contract.
use mathlib.Core.Option
use stdiobus_cpp.Prelude.{
  ℕ, suc, true, false, ◌⊎◌, ◌≢◌, ◌==◌, ◌≡◌, refl, ap, Option, none, some, subst, arith,
  if◌then◌else◌, Bool-cases, inl, inr,
}
use stdiobus_cpp.Prelude.Int.{pos}
use stdiobus_cpp.Embed.{CState}
use stdiobus_cpp.Embed.Kernel.{Kernel, Contract, Carries}
use stdiobus_cpp.Types.{Options}
use stdiobus_cpp.Bus.Machine.{Impl, Machine, deref, allocate, free, update, ◌>>=◌, ◌>>◌}
use stdiobus_cpp.Bus.Lifetime.{
  c_options, set_handle, construct, destruct, stop_if_needed, shut_down, needs_stop,
}
use stdiobus_cpp.Bus.Delivery.{after, deliver, call-eq}
use stdiobus_cpp.Bus.Behaviour.{Owns, owned_call, owned_after}

module _ {K : Kernel} {U : Type 0} where
  pub deref-eq :
      (s : Machine K U) (a : ℕ) (impl : Impl U) → s.heap a ≡ some impl → deref a s ≡ some (impl, s)
  unfolding deref
  deref-eq s a impl e = ap (Option.map (λ i. (i, s))) e

  set_handle-eq :
      (s : Machine K U) (a : ℕ) (impl : Impl U) (h : Option ℕ)
      → s.heap a ≡ some impl
      → set_handle K a h s
        ≡ some (tt, record s { heap = update s.heap a (some (record impl { handle = h })) })
  unfolding set_handle
  set_handle-eq s a impl h e = rw (deref-eq s a impl e, set_handle, ◌>>=◌) refl

-- The Impl before its instance is created.
abbrev pub unopened : {U : Type 0} → Options U → Impl U
unopened o = record { handle = none; options = o }

module _ {K : Kernel} {U : Type 0} where
  -- The machine on which stdio_bus_create is called.
  abbrev pub allocated : Options U → Machine K U → Machine K U
  allocated o s = record s { heap = update s.heap s.next (some (unopened o)); next = suc s.next }

  -- The machine after the constructor.
  abbrev pub built : Options U → Machine K U → Machine K U
  built o s =
      let t = after (allocated o s) (unopened o) (K.create (c_options o s.next)) in
      record t {
        heap = update t.heap s.next (
            some (record { handle = (K.create (c_options o s.next) s.world).result; options = o }));
      }

  allocated_stored :
      (o : Options U) (s : Machine K U) → (allocated o s).heap s.next ≡ some (unopened o)
  allocated_stored o s = ground arith

needs_stop_other : (c : CState) → c ≢ CState.running → c ≢ CState.starting → needs_stop c ≡ false
unfolding needs_stop
needs_stop_other CState.running e f = absurd (e refl)
needs_stop_other CState.starting e f = absurd (f refl)
needs_stop_other CState.created e f = refl
needs_stop_other CState.stopping e f = refl
needs_stop_other CState.stopped e f = refl

module _ {K : Kernel} {U : Type 0} (L : Contract K) where
  -- The constructor stores a new Impl with the created instance, or with none if create fails; the
  -- callbacks that create makes reach the new Impl.
  pub construct-eq :
      (o : Options U) (s : Machine K U) → construct K o s ≡ some (some s.next, built o s)
  unfolding construct allocate
  construct-eq o s =
      let create = K.create (c_options o s.next) in
      let stored = allocated_stored {K = K} o s in
      rw
        (
          call-eq (allocated o s) s.next (unopened o) create stored
              (L.create_carries (c_options o s.next) s.world),
          ◌>>=◌,
          set_handle-eq (after (allocated o s) (unopened o) create) s.next (unopened o)
              (create s.world).result stored,
        )
        refl

  -- The machine after the destructor has stopped a running or starting bus.
  abbrev pub stopped : Machine K U → ℕ → Impl U → Machine K U
  stopped s h impl =
      if needs_stop (K.get_state h s.world) then after s impl (K.stop h (pos 5)) else s

  stop_if_needed-eq :
      {s : Machine K U} {a h : ℕ} {impl : Impl U}
      → Owns L s a h impl
      → (stop_if_needed K h s ≡ some (tt, stopped s h impl)) × Owns L (stopped s h impl) a h impl
  unfolding stop_if_needed
  stop_if_needed-eq {s} {a} {h} {impl} o = elim (Bool-cases (needs_stop (K.get_state h s.world))) [
    | inl e ↦ (
      rw (e, stop_if_needed, owned_call L o _ (L.stop_keeps h (pos 5)), ◌>>=◌) refl,
      rw e (owned_after L o _ (L.stop_keeps h (pos 5))),
    )
    | inr e ↦ (rw (e, stop_if_needed) refl, rw e o)
  ]

  destruct_open :
      {s : Machine K U} {a h : ℕ} {impl : Impl U}
      → Owns L s a h impl
      → destruct K (some a) s ≡ (shut_down K a h >> free a) s
  unfolding destruct
  destruct_open {s} {a} {h} {impl} o =
      rw (deref-eq s a impl o.stored, destruct, ◌>>=◌, o.handle) refl

  -- The machine after the destructor of a bus with an instance.
  abbrev pub destroyed : Machine K U → ℕ → ℕ → Impl U → Machine K U
  destroyed s a h impl =
      let t = after (stopped s h impl) impl (K.destroy h) in
      record t { heap = update (update t.heap a (some (record impl { handle = none }))) a none }

  -- The destructor stops the instance for up to five seconds if it runs or starts, destroys it, and
  -- frees the Impl last: the callbacks of both calls still reach it.
  pub destruct-eq :
      {s : Machine K U} {a h : ℕ} {impl : Impl U}
      → Owns L s a h impl
      → destruct K (some a) s ≡ some (tt, destroyed s a h impl)
  unfolding destruct shut_down free
  destruct-eq {s} {a} {h} {impl} o =
      let (stop, o') = stop_if_needed-eq o in
      let t = after (stopped s h impl) impl (K.destroy h) in
      rw
        (
          destruct_open o,
          shut_down,
          stop,
          ◌>>=◌,
          call-eq (stopped s h impl) a impl (K.destroy h) o'.stored (
              subst (λ u. Carries u (K.destroy h (stopped s h impl).world)) o'.context
                (L.destroy_carries h (stopped s h impl).world)),
          set_handle-eq t a impl none o'.stored,
        )
        refl

  -- The destructor of a bus with an instance. If the instance runs or starts, it is stopped for up
  -- to five seconds and then destroyed; in any other state it is only destroyed. The callbacks of
  -- these calls reach the handlers, in order, and the Impl is freed and nothing else in the heap
  -- changes.
  pub destruct_by_state :
      {s : Machine K U} {a h : ℕ} {impl : Impl U}
      → Owns L s a h impl
      → (t : Machine K U) × (destruct K (some a) s ≡ some (tt, t))
        × ((K.get_state h s.world ≡ CState.running) ⊎ (K.get_state h s.world ≡ CState.starting)
            → let stop = K.stop h (pos 5) s.world in
              (t.world ≡ (K.destroy h stop.world).world)
              × (t.user
                  ≡ deliver impl
                      (K.destroy h stop.world).callbacks
                      (deliver impl stop.callbacks s.user)))
        × (K.get_state h s.world ≢ CState.running
            → K.get_state h s.world ≢ CState.starting
            → (t.world ≡ (K.destroy h s.world).world)
              × (t.user ≡ deliver impl (K.destroy h s.world).callbacks s.user))
        × ((b : ℕ) → t.heap b ≡ (if a == b then none else s.heap b))
  unfolding needs_stop
  destruct_by_state {s} {a} {h} {impl} o = (
    destroyed s a h impl,
    destruct-eq o,
    (λ e. rw (active (K.get_state h s.world) e) (refl, refl)),
    (λ e f. rw (needs_stop_other (K.get_state h s.world) e f) (refl, refl)),
    λ b. freed b,
  )
    where
      active : (c : CState) → (c ≡ CState.running) ⊎ (c ≡ CState.starting) → needs_stop c ≡ true
      active c (inl e) = ap needs_stop e
      active c (inr e) = ap needs_stop e

      freed : (b : ℕ) → (destroyed s a h impl).heap b ≡ (if a == b then none else s.heap b)
      freed b = elim (Bool-cases (needs_stop (K.get_state h s.world))) [
        | inl e ↦ rw e (ground arith)
        | inr e ↦ rw e (ground arith)
      ]

  -- A bus whose create failed is only freed.
  pub destruct-no_instance :
      (s : Machine K U) (a : ℕ) (impl : Impl U)
      → s.heap a ≡ some impl
      → impl.handle ≡ none
      → destruct K (some a) s ≡ some (tt, record s { heap = update s.heap a none })
  unfolding destruct free
  destruct-no_instance s a impl e f = rw (deref-eq s a impl e, destruct, ◌>>=◌, f) refl
