-- ===== src/Async/Threads.antt =====
-- Threads that call request_async and check_timeouts of one AsyncBus, or run its message handler, in
-- any interleaving. A step is what a thread does between two points at which another one can come in
-- between: the atomic next_id_++, a critical section under pending_mutex_, or a read of the clock.
-- What the kernel answers to a send is left open.
pub mod Stable
pub mod Invariant
pub mod Ids
pub mod Acts
pub mod Duplicate
use stdiobus_cpp.Prelude.{
  ℕ, ◌≡◌, Bool, true, false, Option, none, some, [], Bytes, is_empty, ◌==◌, if◌then◌else◌,
}
use stdiobus_cpp.Prelude.Int.{ℤ, ◌+ℤ◌}
use stdiobus_cpp.Error.{Error, is_error}
use stdiobus_cpp.Async.Id.{extract_id, extract_or_inject_id}
use stdiobus_cpp.Async.Table.{PendingRequest}
use stdiobus_cpp.Async.Pending.{
  AsyncState, AsyncResult, register, settle, handle_response, check_timeouts,
}
use stdiobus_cpp.Async.Pending
use stdiobus_cpp.Bus.Machine.{update}

-- Where a thread stands, with the local variables that are live there.
pub data Pc : Type 0 where
  idle : Pc
  identified : (id : Bytes) → (timeout : ℤ) → Pc  -- before the lock of request_async
  sending : (id : Bytes) → (r : PendingRequest) → Pc  -- before bus_.send
  refused : (id : Bytes) → (err : Error) → (r : PendingRequest) → Pc  -- before the second lock
  returned : (r : PendingRequest) → Pc  -- at `return future`, after a send that succeeded
  failed : (r : PendingRequest) → Pc  -- at `return future`, after a send that failed
  sweeping : (now : ℤ) → Pc  -- before the lock of check_timeouts
  handling : (msg : Bytes) → Pc  -- before the lock of handle_response

-- AsyncResult{err, ""}
abbrev pub send_error : Error → AsyncResult
send_error err = record { error = err; response = [] }

-- One step of one thread.
pub data Move (s : AsyncState) : Pc → AsyncState → Pc → Type 0 where
  identify :
      (message : Bytes) (timeout : ℤ)
      → Move s idle
          (record s { next_id = (extract_or_inject_id message s.next_id).next_id })
          (identified (extract_or_inject_id message s.next_id).id timeout)
  enter :
      {id : Bytes} {timeout : ℤ} (now : ℤ)
      → Move s
          (identified id timeout)
          (register id (now +ℤ timeout) s)
          (sending id (record { promise = s.next_promise; deadline = now +ℤ timeout }))
  send_succeeds :
      {id : Bytes} {r : PendingRequest} (err : Error)
      → is_error err ≡ false
      → Move s (sending id r) s (returned r)
  send_fails :
      {id : Bytes} {r : PendingRequest} (err : Error)
      → is_error err ≡ true
      → Move s (sending id r) s (refused id err r)
  resolve :
      {id : Bytes} {err : Error} {r : PendingRequest} {t : AsyncState}
      → settle id (send_error err) s ≡ some t
      → Move s (refused id err r) t (failed r)
  leave : {r : PendingRequest} → Move s (returned r) s idle
  leave_failed : {r : PendingRequest} → Move s (failed r) s idle
  read_clock : (now : ℤ) → Move s idle s (sweeping now)
  sweep : {now : ℤ} {t : AsyncState} → check_timeouts now s ≡ some t → Move s (sweeping now) t idle
  receive : (msg : Bytes) → Move s idle s (handling msg)
  respond :
      {msg : Bytes} {t : AsyncState} → handle_response msg s ≡ some t → Move s (handling msg) t idle

-- Threads are numbers.
pub record System : Type 0 where
  pub requests : AsyncState
  pub pc : ℕ → Pc

pub data Step (s : System) : System → Type 0 where
  pick :
      (i : ℕ) {t : AsyncState} {p : Pc}
      → Move s.requests (s.pc i) t p
      → Step s (record { requests = t; pc = update s.pc i p })

-- next_id_(1), no request, and no thread in a method.
abbrev pub init : System
init = record { requests = Pending.start; pc = λ i. idle }

pub data Reach : System → Type 0 where
  start : Reach init
  later : {s t : System} → Reach s → Step s t → Reach t
