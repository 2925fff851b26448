-- ===== src/Bus/Safe.antt =====
-- Rules for code that works on one Bus, by the shape of the code.
use stdiobus_cpp.Prelude.{
  ℕ, ◌≡◌, refl, sym, ◌∙◌, Bool, true, false, some, [], Bytes, if◌then◌else◌, Option-cases, inl, inr,
}
use stdiobus_cpp.Prelude.Int.{ℤ, pos, to_int}
use stdiobus_cpp.Embed.Kernel.{Kernel, Contract}
use stdiobus_cpp.Types.{
  Options, no_stats, stopped, MessageCallback, ErrorCallback, NumberedCallback,
}
use stdiobus_cpp.Bus.Machine.{Impl, Machine, M, update, ◌>>=◌, ◌>>◌, pure}
use stdiobus_cpp.Bus.Calls.{
  start, step, stop, send, set_options, query, stats, worker_count, is_running, state, on_message,
  on_error, on_log, on_worker,
}
use stdiobus_cpp.Bus.Delivery.{after}
use stdiobus_cpp.Bus.Behaviour.{
  Owns, IsClosed, handle_of-eq, closed_handle, owned_operations, no_instance,
}
use stdiobus_cpp.Bus.Lifecycle.{deref-eq}
use stdiobus_cpp.Bus.Program.Operations.{Kept, Kept-refl, Kept-after, Kept-assign}

module _ {K : Kernel} {U : Type 0} (L : Contract K) where
  pub Kept-trans : {s t u : Machine K U} → Kept L s t → Kept L t u → Kept L s u
  Kept-trans {s} {t} {u} k m = record {
    forth = λ b impl e.
        let (i1, e1, h1) = k.forth b impl e in
        let (i2, e2, h2) = m.forth b i1 e1 in (i2, e2, h2 ∙ h1);
    back = λ b impl e.
        let (i1, e1, h1) = m.back b impl e in
        let (i2, e2, h2) = k.back b i1 e1 in (i2, e2, h2 ∙ h1);
    next = m.next ∙ k.next;
    context = λ j. m.context j ∙ k.context j;
  }

  -- There is an Impl at `a`, and its instance, if it has one, knows it.
  pub record Stored (a : ℕ) (s : Machine K U) : Type 0 where
    pub impl : Impl U
    pub found : s.heap a ≡ some impl
    pub known : (h : ℕ) → impl.handle ≡ some h → L.context s.world h ≡ some a

  pub Kept-Stored : {a : ℕ} {s t : Machine K U} → Kept L s t → Stored a s → Stored a t
  Kept-Stored {a} k v =
      let (impl, e, same) = k.forth a v.impl v.found in
      record { impl = impl; found = e; known = λ h f. k.context h ∙ v.known h (sym same ∙ f) }

  module _ (a : ℕ) where
    -- The code returns, and keeps every Impl its instance.
    abbrev pub Safe : {B : Type 0} → M K U B → Type 0
    Safe {B} m =
        (s : Machine K U)
        → Stored a s
        → (r : B) × (t : Machine K U) × (m s ≡ some (r, t)) × Kept L s t

    pub Safe-pure : {B : Type 0} (b : B) → Safe (pure b)
    Safe-pure b s v = (b, s, refl, Kept-refl L s)

    pub Safe-bind :
        {B C : Type 0} {m : M K U B} {f : B → M K U C}
        → Safe m
        → ((b : B) → Safe (f b))
        → Safe (m >>= f)
    Safe-bind {m = m} {f = f} safe rest s v =
        let (b, t, e, k) = safe s v in
        let (c, u, e', k') = rest b t (Kept-Stored k v) in (c, u, rw (e, ◌>>=◌) e', Kept-trans k k')

    pub Safe-then :
        {C : Type 0} {m : M K U (Unit {0})} {n : M K U C} → Safe m → Safe n → Safe (m >> n)
    Safe-then {m = m} {n = n} x y = Safe-bind {m = m} {f = λ _. n} x (λ _. y)

    pub Safe-if :
        {B : Type 0} (test : Bool) {m n : M K U B} → Safe m → Safe n → Safe (if test then m else n)
    Safe-if true x y = x
    Safe-if false x y = y

    -- A change of the application's state alone.
    pub Safe-user : (f : U → U) → Safe (λ s. some (tt, record s { user = f s.user }))
    Safe-user f s v = (
      tt,
      record s { user = f s.user },
      refl,
      record {
        forth = λ b impl e. (impl, e, refl);
        back = λ b impl e. (impl, e, refl);
        next = refl;
        context = λ j. refl;
      },
    )

    pub Safe-set_options : (f : Options U → Options U) → Safe (set_options K f (some a))
    unfolding set_options
    Safe-set_options f s v = (
      tt,
      record s { heap = update s.heap a (some (record (v.impl) { options = f v.impl.options })) },
      rw (deref-eq s a v.impl v.found, set_options, ◌>>=◌) refl,
      Kept-assign L s a v.impl _ v.found refl,
    )

    -- An operation with a result for no instance, and one kernel call for an instance.
    Safe-operation :
        {B : Type 0} {m : M K U B}
        → ((s : Machine K U) → IsClosed (some a) s → (b : B) × (m s ≡ some (b, s)))
        → ((s : Machine K U) (h : ℕ) (impl : Impl U)
            → Owns L s a h impl
            → (b : B) × (t : Machine K U) × (m s ≡ some (b, t)) × Kept L s t)
        → Safe m
    Safe-operation closed opened s v = elim (Option-cases v.impl.handle) [
      | inl e ↦ let (b, f) = closed s (v.impl, v.found, e) in (b, s, f, Kept-refl L s)
      | inr (h, e) ↦
          opened s h v.impl (record { stored = v.found; handle = e; context = v.known h e })
    ]

    pub Safe-start : Safe (start K (some a))
    Safe-start =
        Safe-operation (λ s c. (_, (no_instance K (some a) s (pos 0) [] c).0))
          (λ s h impl o. (
            _,
            after s impl (K.start h),
            (owned_operations L o (pos 0) []).0,
            Kept-after L s impl h _ (L.start_keeps h),
          ))

    pub Safe-stop : (timeout : ℤ) → Safe (stop K (some a) timeout)
    Safe-stop timeout =
        Safe-operation (λ s c. (_, (no_instance K (some a) s timeout [] c).2))
          (λ s h impl o. (
            _,
            after s impl (K.stop h (to_int timeout)),
            (owned_operations L o timeout []).1,
            Kept-after L s impl h _ (L.stop_keeps h (to_int timeout)),
          ))

    pub Safe-step : (timeout : ℤ) → Safe (step K (some a) timeout)
    Safe-step timeout =
        Safe-operation (λ s c. (_, (no_instance K (some a) s timeout [] c).1))
          (λ s h impl o. (
            _,
            after s impl (K.step h (to_int timeout)),
            (owned_operations L o timeout []).3,
            Kept-after L s impl h _ (L.step_keeps h (to_int timeout)),
          ))

    pub Safe-send : (message : Bytes) → Safe (send K (some a) message)
    Safe-send message =
        Safe-operation (λ s c. (_, (no_instance K (some a) s (pos 0) message c).3))
          (λ s h impl o. (
            _,
            after s impl (K.ingest h message),
            (owned_operations L o (pos 0) message).2,
            Kept-after L s impl h _ (L.ingest_keeps h message),
          ))

    pub Safe-query :
        {B : Type 0} (missing : B) (ask : ℕ → K.World → B) → Safe (query K missing ask (some a))
    unfolding query
    Safe-query missing ask =
        Safe-operation (λ s c. (missing, rw (closed_handle (some a) s c, query, ◌>>=◌) refl))
          (λ s h impl o.
            (ask h s.world, s, rw (handle_of-eq L o, query, ◌>>=◌) refl, Kept-refl L s))

    pub Safe-stats : Safe (stats K (some a))
    unfolding stats
    Safe-stats = Safe-query no_stats _

    pub Safe-worker_count : Safe (worker_count K (some a))
    unfolding worker_count
    Safe-worker_count = Safe-query (pos 0) _

    pub Safe-is_running : Safe (is_running K (some a))
    unfolding is_running state
    Safe-is_running = Safe-bind (Safe-query stopped _) (λ s. Safe-pure _)

    pub Safe-on_message : (cb : MessageCallback U) → Safe (on_message K (some a) cb)
    unfolding on_message
    Safe-on_message cb = Safe-set_options _

    pub Safe-on_error : (cb : ErrorCallback U) → Safe (on_error K (some a) cb)
    unfolding on_error
    Safe-on_error cb = Safe-set_options _

    pub Safe-on_log : (cb : NumberedCallback U) → Safe (on_log K (some a) cb)
    unfolding on_log
    Safe-on_log cb = Safe-set_options _

    pub Safe-on_worker : (cb : NumberedCallback U) → Safe (on_worker K (some a) cb)
    unfolding on_worker
    Safe-on_worker cb = Safe-set_options _

    -- Closed terms of the code's shape.
    pub ruleset safe = (
      Safe-bind, Safe-then, Safe-if, Safe-pure, Safe-start, Safe-step, Safe-stop, Safe-send,
      Safe-stats, Safe-worker_count, Safe-is_running, Safe-on_message, Safe-on_error, Safe-on_log,
      Safe-on_worker,
    )
