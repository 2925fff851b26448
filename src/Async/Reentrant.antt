-- ===== src/Async/Reentrant.antt =====
-- The methods of AsyncBus as code that callbacks of its Bus may run, while the Bus is in a call of
-- the kernel. The mutex is not recursive: a thread that holds it and locks it again breaks the
-- members, as a set_value that throws does.
pub mod Sections
pub mod Returns
use mathlib.Core.Option
use stdiobus_cpp.Prelude.{
  ℕ, Bool, true, false, Option, none, some, [], Bytes, is_empty, if◌then◌else◌,
}
use stdiobus_cpp.Prelude.Int.{ℤ, pos, ◌+ℤ◌}
use stdiobus_cpp.Error
use stdiobus_cpp.Error.{Error, is_error}
use stdiobus_cpp.Async.Id.{extract_id, extract_or_inject_id}
use stdiobus_cpp.Async.Pending
use stdiobus_cpp.Async.Pending.{AsyncState, AsyncResult, Shared, register, settle}
use stdiobus_cpp.Bus.Reentrant.Callbacks
use stdiobus_cpp.Bus.Reentrant.Callbacks.{
  Slot, on_message, Notice, Operation, start, step, stop, send, Answer, gave, stepped, was, Code,
  finish, change, look, run,
}

-- The members behind bus_, with pending_mutex_.
pub data Members : Type 0 where
  unlocked : AsyncState → Members
  locked : AsyncState → Members
  broken : Members

unfoldable pub lock : Members → Members
lock (unlocked s) = locked s
lock (locked s) = broken
lock broken = broken

unfoldable pub unlock : Members → Members
unlock (unlocked s) = broken
unlock (locked s) = unlocked s
unlock broken = broken

-- What is done while the mutex is held; `none` is a std::future_error.
unfoldable pub inside : (AsyncState → Option AsyncState) → Members → Members
inside f (unlocked s) = broken
inside f (locked s) = elim (f s) [ none ↦ broken | some t ↦ locked t ]
inside f broken = broken

-- next_id_, which is atomic and not under the mutex.
unfoldable pub counter : Members → ℕ
counter (unlocked s) = s.next_id
counter (locked s) = s.next_id
counter broken = 0

unfoldable pub set_counter : ℕ → Members → Members
set_counter n (unlocked s) = unlocked (record s { next_id = n })
set_counter n (locked s) = locked (record s { next_id = n })
set_counter n broken = broken

-- std::lock_guard<std::mutex> lock(pending_mutex_), for the rest of a block.
abbrev pub section : (AsyncState → Option AsyncState) → Code Members → Code Members
section f code = change lock (change (inside f) (change unlock code))

-- if (auto err = bus_.send(message); err)
unfoldable pub resolve_failed : Bytes → Answer → Code Members → Code Members
unfolding is_error settle
resolve_failed id (gave err) code = elim (is_error err) [
  | true ↦ section (settle id (record { error = err; response = [] })) code
  | false ↦ code
]
resolve_failed id (stepped n) code = code
resolve_failed id (was state) code = code

-- request_async, at the time `now`
unfoldable pub request_async : Bytes → ℤ → ℤ → Code Members → Code Members
unfolding counter set_counter extract_or_inject_id register ◌+ℤ◌ resolve_failed
request_async message now timeout code = look (λ m.
    let x = extract_or_inject_id message (counter m) in
    change (set_counter x.next_id) (
      section (λ s. some (register x.id (now +ℤ timeout) s))
        (run (send x.json) (λ a. resolve_failed x.id a code))))

-- handle_response
unfoldable pub handle_response : Bytes → Code Members
unfolding extract_id is_empty settle
handle_response msg = elim (is_empty (extract_id msg)) [
  | true ↦ finish
  | false ↦ section (settle (extract_id msg) (record { error = Error.ok; response = msg })) finish
]

unfoldable pub check_timeouts : ℤ → Code Members → Code Members
unfolding Pending.check_timeouts
check_timeouts now code = section (Pending.check_timeouts now) code

-- What an application does with an AsyncBus, in a callback or outside of one: it calls its methods,
-- goes on by what they return, and reads the futures.
pub data App : Type 0 where
  ends : App
  requests : (message : Bytes) → (now timeout : ℤ) → App → App
  notifies : (message : Bytes) → (Answer → App) → App
  sweeps : (now : ℤ) → App → App
  pumps : (timeout : ℤ) → (Answer → App) → App
  starts : (Answer → App) → App
  stops : (timeout : ℤ) → (Answer → App) → App
  reads : ((ℕ → Shared) → App) → App

-- The futures.
unfoldable pub futures : Members → ℕ → Shared
futures (unlocked s) = s.promises
futures (locked s) = s.promises
futures broken = λ p. Pending.broken

unfoldable pub code_of : App → Code Members
unfolding request_async check_timeouts futures
code_of ends = finish
code_of (requests message now timeout app) = request_async message now timeout (code_of app)
code_of (notifies message f) = run (send message) (λ a. code_of (f a))
code_of (sweeps now app) = check_timeouts now (code_of app)
code_of (pumps timeout f) = run (step timeout) (λ a. code_of (f a))
code_of (starts f) = run start (λ a. code_of (f a))
code_of (stops timeout f) = run (stop timeout) (λ a. code_of (f a))
code_of (reads f) = look (λ m. code_of (f (futures m)))

-- setup_message_handler
unfoldable pub message_handler : Notice → Code Members
unfolding handle_response
message_handler (Callbacks.message msg) = handle_response msg
message_handler _ = finish

-- The callbacks of the Bus: the one of setup_message_handler, and the application's.
unfoldable pub callbacks : (Slot → Option (Notice → App)) → Slot → Option (Notice → Code Members)
unfolding message_handler code_of
callbacks others on_message = some message_handler
callbacks others slot = Option.map (λ f x. code_of (f x)) (others slot)
