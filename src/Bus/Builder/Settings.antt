-- ===== src/Bus/Builder/Settings.antt =====
-- Chains of BusBuilder's setters, and the options that they are to give: for each field what the
-- last setter of that field gave, and the default where there is none.
use stdiobus_cpp.Prelude.{ℕ, Option, none, some, List, [], ◌∷◌, Bytes, or_default}
use stdiobus_cpp.Prelude.Int.{ℤ}
use stdiobus_cpp.Types.{ListenMode, Options, MessageCallback, ErrorCallback, NumberedCallback}
use stdiobus_cpp.Embed.Kernel.{Kernel}
use stdiobus_cpp.Bus.Machine.{Machine}
use stdiobus_cpp.Bus.Builder.{
  config_path, config_json, log_level, listen_tcp, listen_unix, on_message, on_error, on_log,
  on_worker,
}

-- A setter with its arguments.
pub data Setting (U : Type 0) : Type 0 where
  config_path_set : Bytes → Setting U
  config_json_set : Bytes → Setting U
  log_level_set : ℤ → Setting U
  listen_tcp_set : Bytes → ℕ → Setting U
  listen_unix_set : Bytes → Setting U
  on_message_set : MessageCallback U → Setting U
  on_error_set : ErrorCallback U → Setting U
  on_log_set : NumberedCallback U → Setting U
  on_worker_set : NumberedCallback U → Setting U

module _ {U : Type 0} where
  unfoldable pub apply : Setting U → Options U → Options U
  unfolding config_path config_json log_level listen_tcp listen_unix on_message on_error on_log
      on_worker
  apply (config_path_set path) options = config_path path options
  apply (config_json_set json) options = config_json json options
  apply (log_level_set level) options = log_level level options
  apply (listen_tcp_set host port) options = listen_tcp host port options
  apply (listen_unix_set path) options = listen_unix path options
  apply (on_message_set cb) options = on_message cb options
  apply (on_error_set cb) options = on_error cb options
  apply (on_log_set cb) options = on_log cb options
  apply (on_worker_set cb) options = on_worker cb options

  -- The chain, its first setter first.
  unfoldable pub chain : List (Setting U) → Options U → Options U
  unfolding apply
  chain [] options = options
  chain (s ∷ settings) options = chain settings (apply s options)

  -- What a setter gives for a field.
  abbrev pub path_of : Setting U → Option Bytes
  path_of (config_path_set path) = some path
  path_of s = none

  abbrev pub json_of : Setting U → Option Bytes
  json_of (config_json_set json) = some json
  json_of s = none

  abbrev pub level_of : Setting U → Option ℤ
  level_of (log_level_set level) = some level
  level_of s = none

  abbrev pub mode_of : Setting U → Option ListenMode
  mode_of (listen_tcp_set host port) = some ListenMode.tcp
  mode_of (listen_unix_set path) = some ListenMode.unix
  mode_of s = none

  abbrev pub host_of : Setting U → Option Bytes
  host_of (listen_tcp_set host port) = some host
  host_of s = none

  abbrev pub port_of : Setting U → Option ℕ
  port_of (listen_tcp_set host port) = some port
  port_of s = none

  abbrev pub unix_path_of : Setting U → Option Bytes
  unix_path_of (listen_unix_set path) = some path
  unix_path_of s = none

  abbrev pub message_of : Setting U → Option (MessageCallback U)
  message_of (on_message_set cb) = some cb
  message_of s = none

  abbrev pub error_of : Setting U → Option (ErrorCallback U)
  error_of (on_error_set cb) = some cb
  error_of s = none

  abbrev pub log_of : Setting U → Option (NumberedCallback U)
  log_of (on_log_set cb) = some cb
  log_of s = none

  abbrev pub worker_of : Setting U → Option (NumberedCallback U)
  worker_of (on_worker_set cb) = some cb
  worker_of s = none

  -- What the last setter of a field gave.
  unfoldable pub last : {B : Type 0} → (Setting U → Option B) → List (Setting U) → Option B
  last field [] = none
  last field (s ∷ settings) = elim (last field settings) [ some b ↦ some b | none ↦ field s ]

  abbrev pub final : {B : Type 0} → (Setting U → Option B) → List (Setting U) → B → B
  final field settings b = or_default b (last field settings)

  abbrev pub chosen : List (Setting U) → Options U → Options U
  chosen ss o = record {
    config_path = final path_of ss o.config_path;
    config_json = final json_of ss o.config_json;
    listener = record {
      mode = final mode_of ss o.listener.mode;
      tcp_host = final host_of ss o.listener.tcp_host;
      tcp_port = final port_of ss o.listener.tcp_port;
      unix_path = final unix_path_of ss o.listener.unix_path;
    };
    on_message = final message_of ss o.on_message;
    on_error = final error_of ss o.on_error;
    on_log = final log_of ss o.on_log;
    on_worker = final worker_of ss o.on_worker;
    on_client_connect = o.on_client_connect;
    on_client_disconnect = o.on_client_disconnect;
    log_level = final level_of ss o.log_level;
  }
