-- ===== src/Bus/Reentrant/Callbacks.antt =====
-- The callbacks that an application gives to a Bus, when they call the Bus again.
use stdiobus_cpp.Prelude.{Bool, true, false, [], Bytes, or_default}
use stdiobus_cpp.Prelude.Int.{ℤ}
use stdiobus_cpp.ErrorCode
use stdiobus_cpp.ErrorCode.{ErrorCode}
use stdiobus_cpp.Error.{Error}
use stdiobus_cpp.Types.{State}
use stdiobus_cpp.Embed.Kernel.{Event}
use stdiobus_cpp.Embed.Kernel

-- The callbacks of Options.
pub data Slot : Type 0 where
  on_message : Slot
  on_error : Slot
  on_log : Slot
  on_worker : Slot
  on_client_connect : Slot
  on_client_disconnect : Slot

unfoldable pub same_slot : Slot → Slot → Bool
same_slot on_message on_message = true
same_slot on_error on_error = true
same_slot on_log on_log = true
same_slot on_worker on_worker = true
same_slot on_client_connect on_client_connect = true
same_slot on_client_disconnect on_client_disconnect = true
same_slot _ _ = false

-- What a trampoline passes to the std::function of its slot.
pub data Notice : Type 0 where
  message : Bytes → Notice
  error : ErrorCode → Bytes → Notice
  numbered : ℤ → Bytes → Notice

-- The trampoline of each event: its slot, and the arguments with an empty text for a null one.
unfoldable pub slot_of : Event → Slot
slot_of (Kernel.message msg) = on_message
slot_of (Kernel.error code msg) = on_error
slot_of (Kernel.log level msg) = on_log
slot_of (Kernel.worker id event) = on_worker
slot_of (Kernel.client_connect id peer) = on_client_connect
slot_of (Kernel.client_disconnect id reason) = on_client_disconnect

unfoldable pub notice_of : Event → Notice
unfolding ErrorCode.cast
notice_of (Kernel.message msg) = message msg
notice_of (Kernel.error code msg) = error (ErrorCode.cast code) (or_default [] msg)
notice_of (Kernel.log level msg) = numbered level (or_default [] msg)
notice_of (Kernel.worker id event) = numbered id (or_default [] event)
notice_of (Kernel.client_connect id peer) = numbered id (or_default [] peer)
notice_of (Kernel.client_disconnect id reason) = numbered id (or_default [] reason)

-- A call on the Bus, and what it returns.
pub data Operation : Type 0 where
  start : Operation
  step : ℤ → Operation
  stop : ℤ → Operation
  send : Bytes → Operation
  state : Operation

pub data Answer : Type 0 where
  gave : Error → Answer
  stepped : ℤ → Answer
  was : State → Answer

-- What a callback does: it changes or reads the application's state, calls the Bus, or sets one of
-- its callbacks, to a function or to none.
pub data Code (U : Type 0) : Type 0 where
  finish : Code U
  change : (U → U) → Code U → Code U
  look : (U → Code U) → Code U
  run : Operation → (Answer → Code U) → Code U
  set : Slot → (Notice → Code U) → Code U → Code U
  unset : Slot → Code U → Code U

-- What the code needs of the application's state to keep `P`: it sets no callback, calls only the
-- operations that `allows` holds of, and has `P` where it calls one and where it ends.
abbrev pub Meets : {U : Type 0} → (Operation → Type 0) → (U → Type 0) → Code U → U → Type 0
Meets allows P finish u = P u
Meets allows P (change f code) u = Meets allows P code (f u)
Meets allows P (look f) u = Meets allows P (f u) u
Meets {U} allows P (run op f) u =
    allows op × P u × ((a : Answer) (v : U) → P v → Meets allows P (f a) v)
Meets allows P (set slot handler code) u = ⊥
Meets allows P (unset slot code) u = ⊥
