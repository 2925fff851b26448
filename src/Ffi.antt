-- ===== src/Ffi.antt =====
-- include/stdiobus/ffi.hpp: the conversions and the non-owning Handle, over the kernel interface.
pub mod Handle
use stdiobus_cpp.Embed.{CState, CStats, state_value}
use stdiobus_cpp.Types.{State, Stats, cast_state}

unfoldable pub to_state : CState → State
unfolding cast_state
to_state s = cast_state (state_value s)

unfoldable pub to_stats : CStats → Stats
to_stats s = record {
  messages_in = s.messages_in;
  messages_out = s.messages_out;
  bytes_in = s.bytes_in;
  bytes_out = s.bytes_out;
  worker_restarts = s.worker_restarts;
  routing_errors = s.routing_errors;
  client_connects = s.client_connects;
  client_disconnects = s.client_disconnects;
}
