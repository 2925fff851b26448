-- ===== src/Types.antt =====
-- include/stdiobus/types.hpp: the state and listener enums, the statistics, the options with their
-- callbacks, and to_ms.
pub mod Laws
use stdiobus_cpp.Prelude.{ℕ, ◌*◌, Option, none, [], Bytes, codes, ◌==◌, if◌then◌else◌}
use stdiobus_cpp.Prelude.Int.{ℤ, pos, negsuc, div_trunc, scale, to_int}
use stdiobus_cpp.ErrorCode.{ErrorCode}

-- enum class State; `unnamed` holds the ints that have no enumerator.
pub data State : Type 0 where
  created starting running stopping stopped : State
  unnamed : ℤ → State

-- static_cast<int>(state)
unfoldable pub state_value : State → ℤ
state_value created = pos 0
state_value starting = pos 1
state_value running = pos 2
state_value stopping = pos 3
state_value stopped = pos 4
state_value (unnamed n) = n

named_state : ℕ → State
named_state n =
    if n == 0
    then created
    else if n == 1
    then starting
    else if n == 2
    then running
    else if n == 3
    then stopping
    else if n == 4
    then stopped
    else unnamed (pos n)

-- static_cast<State>(n)
unfoldable pub cast_state : ℤ → State
unfolding named_state
cast_state (pos n) = named_state n
cast_state (negsuc n) = unnamed (negsuc n)

unfoldable pub state_name : State → Bytes
state_name created = codes "Created"
state_name starting = codes "Starting"
state_name running = codes "Running"
state_name stopping = codes "Stopping"
state_name stopped = codes "Stopped"
state_name (unnamed n) = codes "Unknown"

-- enum class ListenMode
pub data ListenMode : Type 0 where
  embedded tcp unix : ListenMode

pub record Stats : Type 0 where
  pub messages_in : ℕ
  pub messages_out : ℕ
  pub bytes_in : ℕ
  pub bytes_out : ℕ
  pub worker_restarts : ℕ
  pub routing_errors : ℕ
  pub client_connects : ℕ
  pub client_disconnects : ℕ

-- Stats{}
abbrev pub no_stats : Stats
no_stats = record {
  messages_in = 0;
  messages_out = 0;
  bytes_in = 0;
  bytes_out = 0;
  worker_restarts = 0;
  routing_errors = 0;
  client_connects = 0;
  client_disconnects = 0;
}

pub record ListenerConfig : Type 0 where
  pub mode : ListenMode
  pub tcp_host : Bytes
  pub tcp_port : ℕ
  pub unix_path : Bytes

-- A std::function is empty or a function; what it does is a change of the application's state `U`.
abbrev pub MessageCallback : Type 0 → Type 0
MessageCallback U = Option (Bytes → U → U)

abbrev pub ErrorCallback : Type 0 → Type 0
ErrorCallback U = Option (ErrorCode → Bytes → U → U)

-- LogCallback, WorkerCallback, ClientConnectCallback and ClientDisconnectCallback have one shape.
abbrev pub NumberedCallback : Type 0 → Type 0
NumberedCallback U = Option (ℤ → Bytes → U → U)

pub record Options (U : Type 0) : Type 0 where
  pub config_path : Bytes
  pub config_json : Bytes
  pub listener : ListenerConfig
  pub log_level : ℤ
  pub on_message : MessageCallback U
  pub on_error : ErrorCallback U
  pub on_log : NumberedCallback U
  pub on_worker : NumberedCallback U
  pub on_client_connect : NumberedCallback U
  pub on_client_disconnect : NumberedCallback U

-- Options{}
abbrev pub default_options : (U : Type 0) → Options U
default_options U = record {
  config_path = [];
  config_json = [];
  listener = record { mode = embedded; tcp_host = []; tcp_port = 0; unix_path = [] };
  log_level = pos 1;
  on_message = none;
  on_error = none;
  on_log = none;
  on_worker = none;
  on_client_connect = none;
  on_client_disconnect = none;
}

-- duration_cast<milliseconds> of `count` ticks of num/den seconds, rounding towards zero.
unfoldable pub duration_cast_ms : ℕ → ℕ → ℤ → ℤ
unfolding scale div_trunc
duration_cast_ms num den count = div_trunc (scale count (num * 1000)) den

unfoldable pub to_ms : ℕ → ℕ → ℤ → ℤ
unfolding duration_cast_ms to_int
to_ms num den count = to_int (duration_cast_ms num den count)
