-- ===== src/Async/Client/Construct.antt =====
-- What the constructor of an AsyncBus leaves.

use stdiobus_cpp.Prelude.{ℕ, ◌≡◌, refl, ◌∙◌, none, some, ==_refl, Bytes}
use stdiobus_cpp.Embed.Kernel.{Kernel, Contract}
use stdiobus_cpp.Types.{Options, default_options}
use stdiobus_cpp.Bus.Machine.{Impl, Machine, ◌>>=◌, ◌>>◌, assign, update}
use stdiobus_cpp.Bus.Lifetime.{c_options}
use stdiobus_cpp.Bus.Calls.{on_message, set_options}
use stdiobus_cpp.Bus.Behaviour.{Owns, IsClosed}
use stdiobus_cpp.Bus.Configuration.{construct_from_path-construct}
use stdiobus_cpp.Bus.Lifecycle.{construct-eq, built, deref-eq}
use stdiobus_cpp.Async.Pending
use stdiobus_cpp.Async.Client.{
  Client, lift, construct, construct_from_path, initialize, setup_message_handler, message_handler,
}
use stdiobus_cpp.Async.Client.Hooked.{hooked}

module _ {K : Kernel} {A : Type 0} where
  -- The machine after the constructor of bus_ and the initializers of the other members.
  abbrev opened : Options A → Machine K (Client A) → Machine K (Client A)
  opened o s =
      let t = built (lift o) s in
      record t { user = record (t.user) { requests = some Pending.start } }

  -- ... and after setup_message_handler.
  abbrev pub ready_machine : Options A → Machine K (Client A) → Machine K (Client A)
  ready_machine o s =
      let t = opened o s in
      record t {
        heap = update t.heap s.next (
            some (record {
              handle = (K.create (c_options (lift o) s.next) s.world).result;
              options = hooked o;
            }));
      }

  set_options-eq :
      (f : Options (Client A) → Options (Client A)) (s : Machine K (Client A)) (a : ℕ)
      (impl : Impl (Client A))
      → s.heap a ≡ some impl
      → set_options K f (some a) s
        ≡ some (
          tt,
          record s { heap = update s.heap a (some (record impl { options = f impl.options })) },
        )
  unfolding set_options assign
  set_options-eq f s a impl e = rw (deref-eq s a impl e, set_options, ◌>>=◌) refl

module _ {K : Kernel} {A : Type 0} (L : Contract K) where
  construct_ready :
      (o : Options A) (s : Machine K (Client A))
      → construct K o s ≡ some (some s.next, ready_machine o s)
  unfolding construct initialize setup_message_handler on_message
  construct_ready o s =
      rw
        (
          construct-eq L (lift o) s,
          construct,
          ◌>>=◌,
          ◌>>◌,
          initialize,
          setup_message_handler,
          on_message,
          set_options-eq (λ x. record x { on_message = some message_handler }) (opened o s) s.next
              (record {
                handle = (K.create (c_options (lift o) s.next) s.world).result;
                options = lift o;
              })
              (rw (==_refl s.next) refl),
        )
        refl

  pub construct_lem :
      (o : Options A) (s : Machine K (Client A))
      → (t : Machine K (Client A)) × (construct K o s ≡ some (some s.next, t))
        × (t.world ≡ (K.create (c_options (lift o) s.next) s.world).world)
        × (t.user.requests ≡ some Pending.start)
        × ((h : ℕ)
            → (K.create (c_options (lift o) s.next) s.world).result ≡ some h
            → Owns L t s.next h (record { handle = some h; options = hooked o }))
        × ((K.create (c_options (lift o) s.next) s.world).result ≡ none → IsClosed (some s.next) t)
  unfolding c_options
  construct_lem o s = (
    ready_machine o s,
    construct_ready o s,
    refl,
    refl,
    (λ h e. record {
      stored = rw (==_refl s.next, e) refl;
      handle = refl;
      context = L.create_context (c_options (lift o) s.next) s.world h e h ∙ rw (==_refl h) refl;
    }),
    λ e. (record { handle = none; options = hooked o }, rw (==_refl s.next, e) refl, refl),
  )

-- The constructor from a path.
pub construct_from_path-eq :
    (K : Kernel) {A : Type 0} (path : Bytes) (s : Machine K (Client A))
    → construct_from_path K path s
      ≡ construct K (record (default_options A) { config_path = path }) s
unfolding construct_from_path construct
construct_from_path-eq K {A} path s =
    rw
      (construct_from_path-construct K {U = Client A} path s, construct_from_path, construct, ◌>>=◌)
      refl
