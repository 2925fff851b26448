-- ===== src/Embed/Kernel.antt =====
-- The kernel library behind stdio_bus_embed.h, as an interface. Its code is not in the repository,
-- so its state and functions are parameters; `Contract` states what the header documents of them
-- and the SDK relies on.
use stdiobus_cpp.Prelude.{ℕ, ◌≡◌, Option, none, some, List, Bytes, All, ◌==◌, if◌then◌else◌}
use stdiobus_cpp.Prelude.Int.{ℤ}
use stdiobus_cpp.Embed.{CState, COptions, CStats}

-- One call of a callback pointer, with the arguments behind the instance. A text is null or bytes.
pub data Event : Type 0 where
  message : Bytes → Event
  error : ℤ → Option Bytes → Event
  log : ℤ → Option Bytes → Event
  worker : ℤ → Option Bytes → Event
  client_connect : ℤ → Option Bytes → Event
  client_disconnect : ℤ → Option Bytes → Event

pub record Callback : Type 0 where
  pub event : Event
  pub user_data : ℕ

-- What a call returns, the callbacks that it makes on the way, in order, and the kernel's new state.
pub record Reply (W A : Type 0) : Type 0 where
  pub result : A
  pub callbacks : List Callback
  pub world : W

-- Instances (stdio_bus_t*) are numbers.
pub record Kernel : Type 1 where
  pub World : Type 0
  pub create : COptions → World → Reply World (Option ℕ)
  pub start : ℕ → World → Reply World ℤ
  pub step : ℕ → ℤ → World → Reply World ℤ
  pub stop : ℕ → ℤ → World → Reply World ℤ
  pub ingest : ℕ → Bytes → World → Reply World ℤ
  pub destroy : ℕ → World → Reply World (Unit {0})
  pub get_state : ℕ → World → CState
  pub worker_count : ℕ → World → ℤ
  pub session_count : ℕ → World → ℤ
  pub pending_count : ℕ → World → ℤ
  pub client_count : ℕ → World → ℤ
  pub get_poll_fd : ℕ → World → ℤ
  pub get_stats : ℕ → World → CStats

-- Every callback of a reply carries the user context `u`.
abbrev pub Carries : {W A : Type 0} → Option ℕ → Reply W A → Type 0
Carries u r = All (λ c. some c.user_data ≡ u) r.callbacks

module _ (K : Kernel) (context : K.World → ℕ → Option ℕ) (h : ℕ) where
  -- A call of an instance neither creates nor destroys one, and its callbacks carry the context
  -- that the instance was created with.
  pub record Keeps (A : Type 0) (call : K.World → Reply K.World A) : Type 0 where
    pub same : (w : K.World) (j : ℕ) → context (call w).world j ≡ context w j
    pub carries : (w : K.World) → Carries (context w h) (call w)

-- What the header says of instances and of the user context. `context w h` is the user_data of the
-- instance `h`, and `none` where there is no such instance.
pub record Contract (K : Kernel) : Type 0 where
  pub context : K.World → ℕ → Option ℕ
  -- NULL on error: no instance. Errors may be reported by on_error.
  pub create_null :
      (o : COptions) (w : K.World)
      → (K.create o w).result ≡ none
      → (j : ℕ) → context (K.create o w).world j ≡ context w j
  -- A new instance, with the context of its options.
  pub create_fresh :
      (o : COptions) (w : K.World) (h : ℕ) → (K.create o w).result ≡ some h → context w h ≡ none
  pub create_context :
      (o : COptions) (w : K.World) (h : ℕ)
      → (K.create o w).result ≡ some h
      → (j : ℕ)
      → context (K.create o w).world j ≡ (if h == j then some o.user_data else context w j)
  pub create_carries : (o : COptions) (w : K.World) → Carries (some o.user_data) (K.create o w)
  pub start_keeps : (h : ℕ) → Keeps K context h ℤ (K.start h)
  pub step_keeps : (h : ℕ) (ms : ℤ) → Keeps K context h ℤ (K.step h ms)
  pub stop_keeps : (h : ℕ) (s : ℤ) → Keeps K context h ℤ (K.stop h s)
  pub ingest_keeps : (h : ℕ) (msg : Bytes) → Keeps K context h ℤ (K.ingest h msg)
  -- "After this call, the bus pointer is invalid."
  pub destroy_context :
      (h : ℕ) (w : K.World) (j : ℕ)
      → context (K.destroy h w).world j ≡ (if h == j then none else context w j)
  pub destroy_carries : (h : ℕ) (w : K.World) → Carries (context w h) (K.destroy h w)
