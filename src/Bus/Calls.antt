-- ===== src/Bus/Calls.antt =====
-- The operations, queries and callback setters of a Bus.
use stdiobus_cpp.Prelude.{ℕ, Bool, true, false, Option, none, some, Bytes, codes}
use stdiobus_cpp.Prelude.Int.{ℤ, pos, neg, to_int}
use stdiobus_cpp.ErrorCode.{invalid, value}
use stdiobus_cpp.Error.{Error, with_message, from_c}
use stdiobus_cpp.Embed.Kernel.{Kernel}
use stdiobus_cpp.Ffi.{to_stats, to_state}
use stdiobus_cpp.Types.{
  State, running, created, stopped, Stats, no_stats, Options, MessageCallback, ErrorCallback,
  NumberedCallback, duration_cast_ms,
}
use stdiobus_cpp.Bus.Machine.{Bus, M, ◌>>=◌, pure, deref, assign, call, handle_of}

-- Error(ErrorCode::Invalid, "Bus not initialized")
abbrev pub not_initialized : Error
not_initialized = with_message invalid (codes "Bus not initialized")

module _ (K : Kernel) {U : Type 0} where
  unfoldable pub start : Bus → M K U Error
  unfolding handle_of call from_c
  start bus = do
    handle ← handle_of bus
    elim handle [
      | none ↦ pure not_initialized
      | some h ↦ (do rc ← call (K.start h); pure (from_c rc))
    ]

  -- step(Duration timeout); the count of the duration is cut to an int.
  unfoldable pub step : Bus → ℤ → M K U ℤ
  unfolding handle_of call to_int value
  step bus timeout = do
    handle ← handle_of bus
    elim handle [ none ↦ pure (value invalid) | some h ↦ call (K.step h (to_int timeout)) ]

  -- step of `count` ticks of num/den seconds.
  unfoldable pub step_duration : Bus → ℕ → ℕ → ℤ → M K U ℤ
  unfolding step duration_cast_ms
  step_duration bus num den count = step bus (duration_cast_ms num den count)

  -- stop(std::chrono::seconds timeout)
  unfoldable pub stop : Bus → ℤ → M K U Error
  unfolding handle_of call from_c to_int
  stop bus timeout = do
    handle ← handle_of bus
    elim handle [
      | none ↦ pure not_initialized
      | some h ↦ (do rc ← call (K.stop h (to_int timeout)); pure (from_c rc))
    ]

  unfoldable pub send : Bus → Bytes → M K U Error
  unfolding handle_of call from_c
  send bus message = do
    handle ← handle_of bus
    elim handle [
      | none ↦ pure not_initialized
      | some h ↦ (do rc ← call (K.ingest h message); pure (from_c rc))
    ]

  -- The common shape of the const queries: a value with no handle, a kernel query with one.
  unfoldable pub query : {A : Type 0} → A → (ℕ → K.World → A) → Bus → M K U A
  unfolding handle_of
  query missing ask bus = do
    handle ← handle_of bus
    elim handle [ none ↦ pure missing | some h ↦ (λ s. some (ask h s.world, s)) ]

  unfoldable pub state : Bus → M K U State
  unfolding query to_state
  state = query stopped (λ h w. to_state (K.get_state h w))

  unfoldable pub is_running : Bus → M K U Bool
  unfolding state
  is_running bus = do s ← state bus; pure (elim s [ running ↦ true | _ ↦ false ])

  unfoldable pub is_created : Bus → M K U Bool
  unfolding state
  is_created bus = do s ← state bus; pure (elim s [ created ↦ true | _ ↦ false ])

  unfoldable pub is_stopped : Bus → M K U Bool
  unfolding state
  is_stopped bus = do s ← state bus; pure (elim s [ stopped ↦ true | _ ↦ false ])

  unfoldable pub stats : Bus → M K U Stats
  unfolding query to_stats
  stats = query no_stats (λ h w. to_stats (K.get_stats h w))

  unfoldable pub worker_count : Bus → M K U ℤ
  unfolding query
  worker_count = query (pos 0) K.worker_count

  unfoldable pub session_count : Bus → M K U ℤ
  unfolding query
  session_count = query (pos 0) K.session_count

  unfoldable pub pending_count : Bus → M K U ℤ
  unfolding query
  pending_count = query (pos 0) K.pending_count

  unfoldable pub client_count : Bus → M K U ℤ
  unfolding query
  client_count = query (pos 0) K.client_count

  unfoldable pub poll_fd : Bus → M K U ℤ
  unfolding query
  poll_fd = query (neg 1) K.get_poll_fd

  unfoldable pub raw_handle : Bus → M K U (Option ℕ)
  unfolding handle_of
  raw_handle bus = handle_of bus

  -- `if (impl_) impl_->options. ... = std::move(cb);`
  unfoldable pub set_options : (Options U → Options U) → Bus → M K U (Unit {0})
  unfolding deref assign
  set_options f none = pure tt
  set_options f (some a) = do impl ← deref a; assign a (record impl { options = f impl.options })

  unfoldable pub on_message : Bus → MessageCallback U → M K U (Unit {0})
  unfolding set_options
  on_message bus cb = set_options (λ o. record o { on_message = cb }) bus

  unfoldable pub on_error : Bus → ErrorCallback U → M K U (Unit {0})
  unfolding set_options
  on_error bus cb = set_options (λ o. record o { on_error = cb }) bus

  unfoldable pub on_log : Bus → NumberedCallback U → M K U (Unit {0})
  unfolding set_options
  on_log bus cb = set_options (λ o. record o { on_log = cb }) bus

  unfoldable pub on_worker : Bus → NumberedCallback U → M K U (Unit {0})
  unfolding set_options
  on_worker bus cb = set_options (λ o. record o { on_worker = cb }) bus

  unfoldable pub on_client_connect : Bus → NumberedCallback U → M K U (Unit {0})
  unfolding set_options
  on_client_connect bus cb = set_options (λ o. record o { on_client_connect = cb }) bus

  unfoldable pub on_client_disconnect : Bus → NumberedCallback U → M K U (Unit {0})
  unfolding set_options
  on_client_disconnect bus cb = set_options (λ o. record o { on_client_disconnect = cb }) bus

-- explicit operator bool: impl_ is not null.
unfoldable pub is_valid : Bus → Bool
is_valid none = false
is_valid (some a) = true
