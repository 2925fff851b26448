-- ===== src/Async/Client/Session/Trace.antt =====
-- The events of the futures that a sequence of calls makes: its requests and sweeps, and the
-- responses and refusals that the kernel gives to each call.
use stdiobus_cpp.Prelude.{ℕ, List, [], ◌∷◌, ◌++◌}
use stdiobus_cpp.Prelude.Int.{◌+ℤ◌, to_int}
use stdiobus_cpp.Embed.Kernel.{Kernel}
use stdiobus_cpp.Async.Id.{extract_or_inject_id}
use stdiobus_cpp.Async.Pending.History.{Event, tick}
use stdiobus_cpp.Async.Client.Events.{responses, exchange}
use stdiobus_cpp.Async.Client.Session.{
  Call, start_call, stop_call, pump_call, notify_call, request_call, timeouts_call,
}

module _ (K : Kernel) (h : ℕ) where
  -- The events of one call on the instance `h`, in the kernel's state `w` with the counter at
  -- `next_id`.
  unfoldable pub events_of : Call → K.World → ℕ → List Event
  unfolding responses exchange to_int ◌+ℤ◌
  events_of start_call w next_id = responses (K.start h w).callbacks
  events_of (stop_call n) w next_id = responses (K.stop h (to_int n) w).callbacks
  events_of (pump_call n) w next_id = responses (K.step h (to_int n) w).callbacks
  events_of (notify_call m) w next_id = responses (K.ingest h m w).callbacks
  events_of (request_call m now timeout) w next_id = exchange K h w next_id m (now +ℤ timeout)
  events_of (timeouts_call now) w next_id = tick now ∷ []

  -- The kernel's state after the call.
  unfoldable pub world_after : Call → K.World → ℕ → K.World
  unfolding to_int extract_or_inject_id
  world_after start_call w next_id = (K.start h w).world
  world_after (stop_call n) w next_id = (K.stop h (to_int n) w).world
  world_after (pump_call n) w next_id = (K.step h (to_int n) w).world
  world_after (notify_call m) w next_id = (K.ingest h m w).world
  world_after (request_call m now timeout) w next_id =
      (K.ingest h (extract_or_inject_id m next_id).json w).world
  world_after (timeouts_call now) w next_id = w

  -- The counter after the call: only a request takes a number.
  unfoldable pub counter_after : Call → ℕ → ℕ
  unfolding extract_or_inject_id
  counter_after (request_call m now timeout) next_id = (extract_or_inject_id m next_id).next_id
  counter_after start_call next_id = next_id
  counter_after (stop_call n) next_id = next_id
  counter_after (pump_call n) next_id = next_id
  counter_after (notify_call m) next_id = next_id
  counter_after (timeouts_call now) next_id = next_id

  unfoldable pub trace : List Call → K.World → ℕ → List Event
  unfolding events_of world_after counter_after
  trace [] w next_id = []
  trace (c ∷ cs) w next_id =
      events_of c w next_id ++ trace cs (world_after c w next_id) (counter_after c next_id)
