-- ===== src/Embed.antt =====
-- The C API header that the SDK is written against (prebuilds/include/stdio_bus_embed.h): states,
-- error codes, the option and statistics structs. The functions that it declares are in a library
-- that is not part of the repository's sources; `Embed/Kernel.antt` takes them as a parameter.
pub mod Kernel
use stdiobus_cpp.Prelude.{ℕ, Option, Bytes}
use stdiobus_cpp.Prelude.Int.{ℤ, pos, neg}

-- STDIO_BUS_EMBED_API_VERSION
abbrev pub stdio_bus_embed_api_version : ℕ
stdio_bus_embed_api_version = 2

-- stdio_bus_state_t
pub data CState : Type 0 where
  created starting running stopping stopped : CState

abbrev pub state_value : CState → ℤ
state_value created = pos 0
state_value starting = pos 1
state_value running = pos 2
state_value stopping = pos 3
state_value stopped = pos 4

-- The STDIO_BUS_ERR_ macros.
pub data CError : Type 0 where
  config worker routing buffer invalid state : CError

abbrev pub error_value : CError → ℤ
error_value config = neg 10
error_value worker = neg 11
error_value routing = neg 12
error_value buffer = neg 13
error_value invalid = neg 14
error_value state = neg 15

-- stdio_bus_listen_mode_t
pub data CListenMode : Type 0 where
  none tcp unix : CListenMode

-- stdio_bus_listener_config_t; a `const char*` is null or a text.
pub record CListenerConfig : Type 0 where
  pub mode : CListenMode
  pub tcp_host : Option Bytes
  pub tcp_port : ℕ
  pub unix_path : Option Bytes

-- The static functions of Bus::Impl that may stand in a callback field.
pub data Trampoline : Type 0 where
  message_trampoline error_trampoline log_trampoline : Trampoline
  worker_trampoline client_connect_trampoline client_disconnect_trampoline : Trampoline

-- stdio_bus_options_t; `user_data` is the address of an Impl.
pub record COptions : Type 0 where
  pub config_path : Option Bytes
  pub config_json : Option Bytes
  pub listener : CListenerConfig
  pub on_message : Option Trampoline
  pub on_error : Option Trampoline
  pub on_log : Option Trampoline
  pub on_worker : Option Trampoline
  pub on_client_connect : Option Trampoline
  pub on_client_disconnect : Option Trampoline
  pub user_data : ℕ
  pub log_level : ℤ

-- stdio_bus_stats_t
pub record CStats : Type 0 where
  pub messages_in : ℕ
  pub messages_out : ℕ
  pub bytes_in : ℕ
  pub bytes_out : ℕ
  pub worker_restarts : ℕ
  pub routing_errors : ℕ
  pub client_connects : ℕ
  pub client_disconnects : ℕ
