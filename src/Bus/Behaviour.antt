-- ===== src/Bus/Behaviour.antt =====
-- The operations of a Bus on every branch: with no instance, and with the instance that its Impl owns.
use mathlib.Core.Option
use stdiobus_cpp.Prelude.{ℕ, ◌≡◌, refl, ◌∙◌, none, some, Bytes, subst}
use stdiobus_cpp.Prelude.Int.{ℤ, pos, neg, to_int}
use stdiobus_cpp.Error.{from_c}
use stdiobus_cpp.Embed.Kernel.{Kernel, Reply, Keeps, Contract, Carries}
use stdiobus_cpp.Types.{stopped, no_stats}
use stdiobus_cpp.Bus.Machine.{Impl, Bus, Machine, call, deref, handle_of, ◌>>=◌}
use stdiobus_cpp.Bus.Calls.{
  not_initialized, start, step, stop, send, state, stats, worker_count, session_count,
  pending_count, client_count, poll_fd,
}
use stdiobus_cpp.Bus.Delivery.{after, call-eq}

-- A null pointer, or a stored Impl whose create failed.
abbrev pub IsClosed : {K : Kernel} {U : Type 0} → Bus → Machine K U → Type 0
IsClosed none s = Unit {0}
IsClosed {U} (some a) s = (impl : Impl U) × (s.heap a ≡ some impl) × (impl.handle ≡ none)

pub closed_handle :
    {K : Kernel} {U : Type 0} (bus : Bus) (s : Machine K U)
    → IsClosed bus s
    → handle_of bus s ≡ some (none, s)
unfolding handle_of
closed_handle none s c = refl
closed_handle (some a) s (impl, e, f) = rw (e, handle_of, ◌>>=◌, deref, Option.map, f) refl

-- With no instance (a null pointer, or an Impl whose create failed) every operation reports the
-- invalid call, every query has its default, and the machine stays as it is: the kernel is not
-- called.
pub no_instance :
    (K : Kernel) {U : Type 0} (bus : Bus) (s : Machine K U) (timeout : ℤ) (message : Bytes)
    → IsClosed bus s
    → (start K bus s ≡ some (not_initialized, s))
      × (step K bus timeout s ≡ some (neg 6, s))
      × (stop K bus timeout s ≡ some (not_initialized, s))
      × (send K bus message s ≡ some (not_initialized, s))
      × (state K bus s ≡ some (stopped, s))
      × (stats K bus s ≡ some (no_stats, s))
      × (worker_count K bus s ≡ some (pos 0, s))
      × (session_count K bus s ≡ some (pos 0, s))
      × (pending_count K bus s ≡ some (pos 0, s))
      × (client_count K bus s ≡ some (pos 0, s))
      × (poll_fd K bus s ≡ some (neg 1, s))
unfolding start step stop send state stats worker_count session_count pending_count client_count
    poll_fd
no_instance K bus s timeout message c =
    let e = closed_handle bus s c in
    (
      rw (e, start, ◌>>=◌) refl,
      rw (e, step, ◌>>=◌) refl,
      rw (e, stop, ◌>>=◌) refl,
      rw (e, send, ◌>>=◌) refl,
      rw (e, state, ◌>>=◌) refl,
      rw (e, stats, ◌>>=◌) refl,
      rw (e, worker_count, ◌>>=◌) refl,
      rw (e, session_count, ◌>>=◌) refl,
      rw (e, pending_count, ◌>>=◌) refl,
      rw (e, client_count, ◌>>=◌) refl,
      rw (e, poll_fd, ◌>>=◌) refl,
    )

module _ {K : Kernel} {U : Type 0} (L : Contract K) where
  -- The Impl at `a` owns the instance `h`, and the kernel knows `a` as the context of `h`.
  pub record Owns (s : Machine K U) (a h : ℕ) (impl : Impl U) : Type 0 where
    pub stored : s.heap a ≡ some impl
    pub handle : impl.handle ≡ some h
    pub context : L.context s.world h ≡ some a

  pub handle_of-eq :
      {s : Machine K U} {a h : ℕ} {impl : Impl U}
      → Owns s a h impl
      → handle_of (some a) s ≡ some (some h, s)
  unfolding handle_of
  handle_of-eq {s} {a} {h} {impl} o =
      rw (o.stored, handle_of, ◌>>=◌, deref, Option.map, o.handle) refl

  -- A call of the owned instance runs to its end, and its callbacks reach the owner.
  pub owned_call :
      {s : Machine K U} {a h : ℕ} {impl : Impl U}
      → Owns s a h impl
      → {A : Type 0} (f : K.World → Reply K.World A) → Keeps K L.context h A f
      → call f s ≡ some ((f s.world).result, after s impl f)
  owned_call {s} {a} {h} {impl} o f k =
      call-eq s a impl f o.stored (subst (λ u. Carries u (f s.world)) o.context (k.carries s.world))

  -- The owner keeps the instance through a call.
  pub owned_after :
      {s : Machine K U} {a h : ℕ} {impl : Impl U}
      → Owns s a h impl
      → {A : Type 0} (f : K.World → Reply K.World A) → Keeps K L.context h A f
      → Owns (after s impl f) a h impl
  owned_after {s} {a} {h} {impl} o f k = record {
    stored = o.stored;
    handle = o.handle;
    context = k.same s.world h ∙ o.context;
  }

  -- On an owned instance start, stop, send and step are one kernel call each: they return its
  -- result (start, stop and send as an Error), pass on the message and the timeouts (cut to an
  -- int), and deliver the callbacks of the call to the owner's handlers in order.
  pub owned_operations :
      {s : Machine K U} {a h : ℕ} {impl : Impl U}
      → Owns s a h impl
      → (timeout : ℤ) (message : Bytes)
      → (start K (some a) s ≡ some (from_c (K.start h s.world).result, after s impl (K.start h)))
        × (stop K (some a) timeout s
            ≡ some (
              from_c (K.stop h (to_int timeout) s.world).result,
              after s impl (K.stop h (to_int timeout)),
            ))
        × (send K (some a) message s
            ≡ some (from_c (K.ingest h message s.world).result, after s impl (K.ingest h message)))
        × (step K (some a) timeout s
            ≡ some (
              (K.step h (to_int timeout) s.world).result,
              after s impl (K.step h (to_int timeout)),
            ))
  unfolding start stop send step
  owned_operations {s} {a} {h} {impl} o timeout message = (
    rw (handle_of-eq o, start, ◌>>=◌, owned_call o (K.start h) (L.start_keeps h)) refl,
    rw (handle_of-eq o, stop, ◌>>=◌, owned_call o _ (L.stop_keeps h (to_int timeout))) refl,
    rw (handle_of-eq o, send, ◌>>=◌, owned_call o _ (L.ingest_keeps h message)) refl,
    rw (handle_of-eq o, step, ◌>>=◌, owned_call o _ (L.step_keeps h (to_int timeout))) refl,
  )
