-- ===== src/Bus/Lifetime.antt =====
-- Construction, destruction and moves of a Bus.
use stdiobus_cpp.Prelude.{
  ℕ, Bool, true, false, Option, none, some, Bytes, is_empty, [], ◌∷◌, ◌==◌, if◌then◌else◌,
}
use stdiobus_cpp.Prelude.Int.{pos}
use stdiobus_cpp.Embed.{
  CState, COptions, CListenMode, message_trampoline, error_trampoline, log_trampoline,
  worker_trampoline, client_connect_trampoline, client_disconnect_trampoline,
}
use stdiobus_cpp.Embed.Kernel.{Kernel}
use stdiobus_cpp.Types.{ListenMode, Options, default_options}
use stdiobus_cpp.Bus.Machine.{Bus, M, ◌>>=◌, ◌>>◌, pure, deref, assign, allocate, free, call}

-- static_cast<stdio_bus_listen_mode_t>(mode)
unfoldable pub to_listen_mode : ListenMode → CListenMode
to_listen_mode ListenMode.embedded = CListenMode.none
to_listen_mode ListenMode.tcp = CListenMode.tcp
to_listen_mode ListenMode.unix = CListenMode.unix

-- s.c_str() as the C side reads it: up to the first NUL.
unfoldable pub c_string : Bytes → Bytes
c_string [] = []
c_string (c ∷ s) = let rest = c_string s in if c == 0 then [] else c ∷ rest

-- `if (!s.empty()) field = s.c_str();` on a field that starts as a null pointer.
unfoldable pub c_str_or_null : Bytes → Option Bytes
unfolding is_empty c_string
c_str_or_null s = if is_empty s then none else some (c_string s)

-- The stdio_bus_options_t that the constructor builds; `impl` is impl_.get().
unfoldable pub c_options : {U : Type 0} → Options U → ℕ → COptions
unfolding to_listen_mode c_str_or_null
c_options options impl = record {
  config_path = c_str_or_null options.config_path;
  config_json = c_str_or_null options.config_json;
  listener = record {
    mode = to_listen_mode options.listener.mode;
    tcp_host = c_str_or_null options.listener.tcp_host;
    tcp_port = options.listener.tcp_port;
    unix_path = c_str_or_null options.listener.unix_path;
  };
  on_message = some message_trampoline;
  on_error = some error_trampoline;
  on_log = some log_trampoline;
  on_worker = some worker_trampoline;
  on_client_connect = some client_connect_trampoline;
  on_client_disconnect = some client_disconnect_trampoline;
  user_data = impl;
  log_level = options.log_level;
}

-- The states in which the destructor stops the bus first.
unfoldable pub needs_stop : CState → Bool
needs_stop CState.running = true
needs_stop CState.starting = true
needs_stop _ = false

-- Bus(Bus&& other): the new pointer, and what is left in `other`.
unfoldable pub move_construct : Bus → Bus × Bus
move_construct other = (other, none)

module _ (K : Kernel) {U : Type 0} where
  -- impl_->handle = handle;
  unfoldable pub set_handle : ℕ → Option ℕ → M K U (Unit {0})
  unfolding deref assign
  set_handle a handle = do impl ← deref a; assign a (record impl { handle = handle })

  -- Bus(Options options)
  unfoldable pub construct : Options U → M K U Bus
  unfolding allocate call c_options set_handle
  construct options = do
    a ← allocate (record { handle = none; options = options })
    handle ← call (K.create (c_options options a))
    set_handle a handle
    pure (some a)

  -- "Stop if running": the result of the stop is dropped.
  unfoldable pub stop_if_needed : ℕ → M K U (Unit {0})
  unfolding call needs_stop
  stop_if_needed h s =
      (if needs_stop (K.get_state h s.world)
          then (do rc ← call (K.stop h (pos 5)); pure tt)
          else pure tt)
        s

  -- The body of ~Bus() for a handle that is not null.
  unfoldable pub shut_down : ℕ → ℕ → M K U (Unit {0})
  unfolding call set_handle stop_if_needed
  shut_down a h = do stop_if_needed h; call (K.destroy h); set_handle a none

  -- ~Bus(), with the destruction of the member impl_.
  unfoldable pub destruct : Bus → M K U (Unit {0})
  unfolding deref free shut_down
  destruct none = pure tt
  destruct (some a) = do
    impl ← deref a
    elim impl.handle [ none ↦ free a | some h ↦ (do shut_down a h; free a) ]

  -- unique_ptr::reset of the old Impl.
  unfoldable pub reset : Bus → M K U (Unit {0})
  unfolding deref free
  reset none = pure tt
  reset (some a) = do impl ← deref a; free a

  -- operator=(Bus&& other) for `this != &other`: the two pointers afterwards.
  unfoldable pub move_assign : Bus → Bus → M K U (Bus × Bus)
  unfolding reset
  move_assign this other = do reset this; pure (other, none)

  -- Bus(std::string_view config_path)
  unfoldable pub construct_from_path : Bytes → M K U Bus
  unfolding construct move_assign destruct
  construct_from_path config_path = do
    temporary ← construct (record (default_options U) { config_path = config_path })
    p ← move_assign none temporary
    destruct p.1
    pure p.0
