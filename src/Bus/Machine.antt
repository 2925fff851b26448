-- ===== src/Bus/Machine.antt =====
-- What a Bus works on: the kernel's state, the heap of Impl objects and the application's state.
-- A Bus is its unique_ptr, null or the address of an Impl. `none` as the result of an action stands
-- for undefined behaviour: a null or dangling pointer was used.
use mathlib.Core.Option
use stdiobus_cpp.Prelude.{
  ℕ, suc, Option, none, some, List, [], ◌∷◌, Bytes, or_default, ◌==◌, if◌then◌else◌,
}
use stdiobus_cpp.ErrorCode
use stdiobus_cpp.Embed.Kernel.{
  Kernel, Reply, Callback, Event, message, error, log, worker, client_connect, client_disconnect,
}
use stdiobus_cpp.Prelude.Int.{ℤ}
use stdiobus_cpp.Types.{Options}

-- struct Bus::Impl
pub record Impl (U : Type 0) : Type 0 where
  pub handle : Option ℕ
  pub options : Options U

-- std::unique_ptr<Impl>
abbrev pub Bus : Type 0
Bus = Option ℕ

module _ {U : Type 0} where
  unfoldable pub message_trampoline : Impl U → Bytes → U → U
  message_trampoline impl msg u = elim impl.options.on_message [ none ↦ u | some cb ↦ cb msg u ]

  unfoldable pub error_trampoline : Impl U → ℤ → Option Bytes → U → U
  unfolding ErrorCode.cast
  error_trampoline impl code msg u = elim impl.options.on_error [
    | none ↦ u
    | some cb ↦ cb (ErrorCode.cast code) (or_default [] msg) u
  ]

  unfoldable pub log_trampoline : Impl U → ℤ → Option Bytes → U → U
  log_trampoline impl level msg u = elim impl.options.on_log [
    | none ↦ u
    | some cb ↦ cb level (or_default [] msg) u
  ]

  unfoldable pub worker_trampoline : Impl U → ℤ → Option Bytes → U → U
  worker_trampoline impl worker_id event u = elim impl.options.on_worker [
    | none ↦ u
    | some cb ↦ cb worker_id (or_default [] event) u
  ]

  unfoldable pub client_connect_trampoline : Impl U → ℤ → Option Bytes → U → U
  client_connect_trampoline impl client_id peer u = elim impl.options.on_client_connect [
    | none ↦ u
    | some cb ↦ cb client_id (or_default [] peer) u
  ]

  unfoldable pub client_disconnect_trampoline : Impl U → ℤ → Option Bytes → U → U
  client_disconnect_trampoline impl client_id reason u = elim impl.options.on_client_disconnect [
    | none ↦ u
    | some cb ↦ cb client_id (or_default [] reason) u
  ]

  -- The trampoline of each event, on the Impl that `user_data` points to.
  unfoldable pub dispatch : Event → Impl U → U → U
  unfolding message_trampoline error_trampoline log_trampoline worker_trampoline
      client_connect_trampoline client_disconnect_trampoline
  dispatch (message msg) impl = message_trampoline impl msg
  dispatch (error code msg) impl = error_trampoline impl code msg
  dispatch (log level msg) impl = log_trampoline impl level msg
  dispatch (worker id event) impl = worker_trampoline impl id event
  dispatch (client_connect id peer) impl = client_connect_trampoline impl id peer
  dispatch (client_disconnect id reason) impl = client_disconnect_trampoline impl id reason

pub record Machine (K : Kernel) (U : Type 0) : Type 0 where
  pub world : K.World
  pub heap : ℕ → Option (Impl U)
  pub next : ℕ
  pub user : U

abbrev pub update {ℓ} : {A : Type ℓ} → (ℕ → A) → ℕ → A → ℕ → A
update f p v q = if p == q then v else f q

-- Actions on the machine.
abbrev pub M : Kernel → Type 0 → Type 0 → Type 0
M K U A = Machine K U → Option (A × Machine K U)

module _ {K : Kernel} {U : Type 0} where
  infixl 5 ◌>>=◌ ◌>>◌
  abbrev pub ◌>>=◌ : {A B : Type 0} → M K U A → (A → M K U B) → M K U B
  ◌>>=◌ m f s = elim (m s) [ none ↦ none | some (a, s') ↦ f a s' ]

  abbrev pub ◌>>◌ : {B : Type 0} → M K U (Unit {0}) → M K U B → M K U B
  m >> k = m >>= λ _. k

  abbrev pub pure : {A : Type 0} → A → M K U A
  pure a s = some (a, s)

  -- *impl_
  unfoldable pub deref : ℕ → M K U (Impl U)
  deref a s = Option.map (λ impl. (impl, s)) (s.heap a)

  -- impl_-> ... = ...
  unfoldable pub assign : ℕ → Impl U → M K U (Unit {0})
  assign a impl s = some (tt, record s { heap = update s.heap a (some impl) })

  -- std::make_unique<Impl>()
  unfoldable pub allocate : Impl U → M K U ℕ
  allocate impl s =
      some (s.next, record s { heap = update s.heap s.next (some impl); next = suc s.next })

  -- The deallocation that unique_ptr makes; ~Impl itself does nothing with the handle.
  unfoldable pub free : ℕ → M K U (Unit {0})
  free a s = some (tt, record s { heap = update s.heap a none })

  -- The kernel calls a callback pointer.
  unfoldable pub run_callback : Callback → M K U (Unit {0})
  unfolding deref dispatch
  run_callback c s =
      Option.map (λ impl. (tt, record s { user = dispatch c.event impl s.user }))
        (s.heap c.user_data)

  unfoldable pub run_callbacks : List Callback → M K U (Unit {0})
  unfolding run_callback
  run_callbacks [] s = some (tt, s)
  run_callbacks (c ∷ cs) s = elim (run_callback c s) [
    | none ↦ none
    | some (_, s') ↦ run_callbacks cs s'
  ]

  -- A call of a C function, with the callbacks that it makes before it returns.
  unfoldable pub call : {A : Type 0} → (K.World → Reply K.World A) → M K U A
  unfolding run_callbacks
  call f s =
      let r = f s.world in
      Option.map (λ p. (r.result, p.1)) (run_callbacks r.callbacks (record s { world = r.world }))

  -- The handle that `impl_ && impl_->handle` finds.
  unfoldable pub handle_of : Bus → M K U (Option ℕ)
  unfolding deref
  handle_of none = pure none
  handle_of (some a) = do impl ← deref a; pure impl.handle
