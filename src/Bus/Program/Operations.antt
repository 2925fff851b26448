-- ===== src/Bus/Program/Operations.antt =====
-- The operations on one Bus as actions of a program, and who owns what after them.

use stdiobus_cpp.Prelude.{
  ℕ, ◌<◌, ◌≡◌, [], refl, sym, ap, ◌∙◌, none, some, arith, ◌==◌, Bool-cases, inl, inr, Option-cases,
  subst,
}
use stdiobus_cpp.Prelude.Int.{to_int, pos}
use stdiobus_cpp.Embed.Kernel.{Kernel, Reply, Keeps, Contract}
use stdiobus_cpp.Types.{Options}
use stdiobus_cpp.Bus.Machine.{Impl, Bus, Machine, update, ◌>>=◌, assign}
use stdiobus_cpp.Bus.Calls.{set_options}
use stdiobus_cpp.Bus.Delivery.{after}
use stdiobus_cpp.Bus.Behaviour.{Owns, owned_operations, no_instance}
use stdiobus_cpp.Bus.Lifecycle.{deref-eq}
use stdiobus_cpp.Bus.Program.{
  Program, Call, start_call, step_call, stop_call, send_call, setter, run_call, final,
}
use stdiobus_cpp.Bus.Program.Sound.{IsSound, NoLeak}

module _ {K : Kernel} {U : Type 0} (L : Contract K) where
  -- The same Impls hold the same handles, and the kernel has the same instances.
  pub record Kept (s t : Machine K U) : Type 0 where
    pub forth :
        (b : ℕ) (impl : Impl U)
        → s.heap b ≡ some impl
        → (impl' : Impl U) × (t.heap b ≡ some impl') × (impl'.handle ≡ impl.handle)
    pub back :
        (b : ℕ) (impl' : Impl U)
        → t.heap b ≡ some impl'
        → (impl : Impl U) × (s.heap b ≡ some impl) × (impl.handle ≡ impl'.handle)
    pub next : t.next ≡ s.next
    pub context : (j : ℕ) → L.context t.world j ≡ L.context s.world j

  pub Kept-refl : (s : Machine K U) → Kept s s
  Kept-refl s = record {
    forth = λ b impl e. (impl, e, refl);
    back = λ b impl e. (impl, e, refl);
    next = refl;
    context = λ j. refl;
  }

  pub Kept-after :
      {A : Type 0} (s : Machine K U) (impl : Impl U) (h : ℕ) (f : K.World → Reply K.World A)
      → Keeps K L.context h A f
      → Kept s (after s impl f)
  Kept-after s impl h f k = record {
    forth = λ b impl e. (impl, e, refl);
    back = λ b impl e. (impl, e, refl);
    next = refl;
    context = k.same s.world;
  }

  pub Kept-assign :
      (s : Machine K U) (a : ℕ) (impl impl' : Impl U)
      → s.heap a ≡ some impl
      → impl'.handle ≡ impl.handle
      → Kept s (record s { heap = update s.heap a (some impl') })
  Kept-assign s a impl impl' e same = record {
    forth = λ b old f. elim (Bool-cases (a == b)) [
      | inl x ↦ (impl', ground arith, ground arith)
      | inr x ↦ (old, ground arith, refl)
    ];
    back = λ b new f. elim (Bool-cases (a == b)) [
      | inl x ↦ (impl, ground arith, ground arith)
      | inr x ↦ (new, ground arith, refl)
    ];
    next = refl;
    context = λ j. refl;
  }

  pub Kept-IsSound :
      (p : Program K U) (t : Machine K U)
      → Kept p.machine t
      → IsSound L p
      → IsSound L (record p { machine = t })
  Kept-IsSound p t k v = record {
    unique = v.unique;
    stored = λ i a e.
        let (impl, f) = v.stored i a e in let (impl', g, _) = k.forth a impl f in (impl', g);
    pointed = λ a impl' e. let (impl, f, _) = k.back a impl' e in v.pointed a impl f;
    below = λ a impl' e.
        let (impl, f, _) = k.back a impl' e in subst (λ n. a < n) (sym k.next) (v.below a impl f);
    opened = λ a h impl' e f.
        let (impl, g, same) = k.back a impl' e in k.context h ∙ v.opened a h impl g (same ∙ f);
  }

  pub Kept-NoLeak :
      (p : Program K U) (t : Machine K U)
      → Kept p.machine t
      → NoLeak L p
      → NoLeak L (record p { machine = t })
  Kept-NoLeak p t k n h a e =
      let (impl, f, g) = n h a (sym (k.context h) ∙ e) in
      let (impl', f', same) = k.forth a impl f in (impl', f', same ∙ g)

  -- What a call on a Bus does.
  abbrev pub Runs : Call U → Bus → Machine K U → Type 0
  Runs c bus s = (t : Machine K U) × (run_call K c bus s ≡ some t) × Kept s t

  run_null : (c : Call U) (s : Machine K U) → Runs c none s
  unfolding run_call
  run_null start_call s = (s, refl, Kept-refl s)
  run_null (step_call n) s = (s, refl, Kept-refl s)
  run_null (stop_call n) s = (s, refl, Kept-refl s)
  run_null (send_call m) s = (s, refl, Kept-refl s)
  run_null (setter f) s = (s, refl, Kept-refl s)

  run_setter :
      (f : Options U → Options U) (s : Machine K U) (a : ℕ) (impl : Impl U)
      → s.heap a ≡ some impl
      → Runs (setter f) (some a) s
  unfolding run_call assign
  run_setter f s a impl e = (
    record s { heap = update s.heap a (some (record impl { options = f impl.options })) },
    rw (deref-eq s a impl e, run_call, set_options, ◌>>=◌) refl,
    Kept-assign s a impl _ e refl,
  )

  run_closed :
      (c : Call U) (s : Machine K U) (a : ℕ) (impl : Impl U)
      → s.heap a ≡ some impl
      → impl.handle ≡ none
      → Runs c (some a) s
  unfolding run_call
  run_closed start_call s a impl e f =
      (s, ap final (no_instance K (some a) s (pos 0) [] (impl, e, f)).0, Kept-refl s)
  run_closed (step_call n) s a impl e f =
      (s, ap final (no_instance K (some a) s n [] (impl, e, f)).1, Kept-refl s)
  run_closed (stop_call n) s a impl e f =
      (s, ap final (no_instance K (some a) s n [] (impl, e, f)).2, Kept-refl s)
  run_closed (send_call m) s a impl e f =
      (s, ap final (no_instance K (some a) s (pos 0) m (impl, e, f)).3, Kept-refl s)
  run_closed (setter g) s a impl e f = run_setter g s a impl e

  run_open :
      (c : Call U) (s : Machine K U) (a h : ℕ) (impl : Impl U)
      → Owns L s a h impl
      → Runs c (some a) s
  unfolding run_call
  run_open start_call s a h impl o = (
    after s impl (K.start h),
    ap final (owned_operations L o (pos 0) []).0,
    Kept-after s impl h _ (L.start_keeps h),
  )
  run_open (step_call n) s a h impl o = (
    after s impl (K.step h (to_int n)),
    ap final (owned_operations L o n []).3,
    Kept-after s impl h _ (L.step_keeps h (to_int n)),
  )
  run_open (stop_call n) s a h impl o = (
    after s impl (K.stop h (to_int n)),
    ap final (owned_operations L o n []).1,
    Kept-after s impl h _ (L.stop_keeps h (to_int n)),
  )
  run_open (send_call m) s a h impl o = (
    after s impl (K.ingest h m),
    ap final (owned_operations L o (pos 0) m).2,
    Kept-after s impl h _ (L.ingest_keeps h m),
  )
  run_open (setter f) s a h impl o = run_setter f s a impl o.stored

  -- In a sound program every call on a Bus runs to its end.
  pub run_sound :
      (p : Program K U)
      → IsSound L p
      → (i : ℕ) (bus : Bus) → p.slots i ≡ some bus
      → (c : Call U) → Runs c bus p.machine
  run_sound p v i none e c = run_null c p.machine
  run_sound p v i (some a) e c =
      let (impl, f) = v.stored i a e in
      elim (Option-cases impl.handle) [
        | inl g ↦ run_closed c p.machine a impl f g
        | inr (h, g) ↦
            run_open c p.machine a h impl
              (record { stored = f; handle = g; context = v.opened a h impl f g })
      ]
