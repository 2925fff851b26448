-- ===== src/Bus/Builder.antt =====
-- class BusBuilder of include/stdiobus/bus.hpp. A setter returns the builder's new options.
pub mod Settings
use stdiobus_cpp.Prelude.{ℕ, Bytes}
use stdiobus_cpp.Prelude.Int.{ℤ}
use stdiobus_cpp.Embed.Kernel.{Kernel}
use stdiobus_cpp.Types.{
  ListenMode, Options, MessageCallback, ErrorCallback, NumberedCallback, default_options,
}
use stdiobus_cpp.Bus.Machine.{Bus, M}
use stdiobus_cpp.Bus.Lifetime.{construct}

-- BusBuilder()
unfoldable pub new : (U : Type 0) → Options U
new U = default_options U

module _ {U : Type 0} where
  unfoldable pub config_path : Bytes → Options U → Options U
  config_path path options = record options { config_path = path }

  unfoldable pub config_json : Bytes → Options U → Options U
  config_json json options = record options { config_json = json }

  unfoldable pub log_level : ℤ → Options U → Options U
  log_level level options = record options { log_level = level }

  unfoldable pub listen_tcp : Bytes → ℕ → Options U → Options U
  listen_tcp host port options = record options {
    listener = record (options.listener) {
      mode = ListenMode.tcp;
      tcp_host = host;
      tcp_port = port;
    };
  }

  unfoldable pub listen_unix : Bytes → Options U → Options U
  listen_unix path options = record options {
    listener = record (options.listener) { mode = ListenMode.unix; unix_path = path };
  }

  unfoldable pub on_message : MessageCallback U → Options U → Options U
  on_message cb options = record options { on_message = cb }

  unfoldable pub on_error : ErrorCallback U → Options U → Options U
  on_error cb options = record options { on_error = cb }

  unfoldable pub on_log : NumberedCallback U → Options U → Options U
  on_log cb options = record options { on_log = cb }

  unfoldable pub on_worker : NumberedCallback U → Options U → Options U
  on_worker cb options = record options { on_worker = cb }

unfoldable pub build : (K : Kernel) {U : Type 0} → Options U → M K U Bus
unfolding construct
build K options = construct K options
