-- ===== src/Async/Deadline.antt =====
-- The deadlines of request_async in the machine's numbers. A time point of std::chrono::steady_clock
-- is a count of nanoseconds in 64 bits with a sign; a timeout is a count of milliseconds. `none` is
-- an overflow, which C++ leaves undefined.
pub mod Expiry
use stdiobus_cpp.Prelude.{ℕ, ◌^◌, Bool, ◌&&◌, Option, none, some, Bytes, ltb, leb, if◌then◌else◌}
use stdiobus_cpp.Prelude.Int.{ℤ, pos_part, neg_part, ◌+ℤ◌, scale}
use stdiobus_cpp.Async.Pending.{AsyncState, register}

-- The value fits 64 bits with a sign.
abbrev pub fits_int64 : ℤ → Bool
fits_int64 a = ltb (pos_part a) (2 ^ 63) && leb (neg_part a) (2 ^ 63)

-- What C++ says of the result of a signed operation: the value where it fits, undefined otherwise.
unfoldable pub checked : ℤ → Option ℤ
checked a = if fits_int64 a then some a else none

-- std::chrono::steady_clock::now() + timeout: the milliseconds become nanoseconds, and are added.
unfoldable pub deadline_at : ℤ → ℤ → Option ℤ
unfolding checked scale ◌+ℤ◌
deadline_at now timeout = elim (checked (scale timeout 1000000)) [
  | none ↦ none
  | some d ↦ checked (now +ℤ d)
]

-- pending_[id] = PendingRequest{std::move(promise), std::chrono::steady_clock::now() + timeout}
unfoldable pub register_for : Bytes → ℤ → ℤ → AsyncState → Option AsyncState
unfolding deadline_at register
register_for id now timeout s = elim (deadline_at now timeout) [
  | none ↦ none
  | some deadline ↦ some (register id deadline s)
]
