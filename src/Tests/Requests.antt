-- ===== src/Tests/Requests.antt =====
-- Pending requests at concrete ids, deadlines and messages.
use stdiobus_cpp.Prelude.{
  ℕ, ◌<◌, ◌≡◌, ◌≢◌, refl, none, some, [], ◌∷◌, Bytes, codes, is_empty, if◌then◌else◌, List,
}
use stdiobus_cpp.Prelude.Int.{pos}
use stdiobus_cpp.Error
use stdiobus_cpp.Error.{with_message}
use stdiobus_cpp.ErrorCode
use stdiobus_cpp.Async.Id.{extract_id}
use stdiobus_cpp.Async.Table.{lookup}
use stdiobus_cpp.Async.Pending.{
  AsyncState, ready, broken, register, handle_response, check_timeouts, start,
}
use stdiobus_cpp.Async.Pending.Invariant.{IsValid, is_waiting, start-IsValid, register-IsValid}
use stdiobus_cpp.Async.Pending.Response.{register-handle_response}
use stdiobus_cpp.Async.Pending.Timeouts.{check_timeouts_lem, live, is_due}
use stdiobus_cpp.Async.Pending.Duplicate.{register_breaks_older}
use stdiobus_cpp.Async.Pending.History.{Event, request, response, tick, run, check_timeouts_late}

-- Two requests, due at 10 and at 20.
abbrev one : AsyncState
one = register (codes "1") (pos 10) start

abbrev pub two : AsyncState
two = register (codes "2") (pos 20) one

one-IsValid : IsValid one
one-IsValid = register-IsValid (codes "1") (pos 10) start-IsValid

pub two-IsValid : IsValid two
two-IsValid = register-IsValid (codes "2") (pos 20) one-IsValid

abbrev pub events : List Event
events =
    response (codes "{\"id\":2}")
    ∷ request (codes "{\"method\":3}") (pos 30)
    ∷ tick (pos 10)
    ∷ response (codes "{\"id\":1}")
    ∷ []

check_timeouts_late_example :
    (s : AsyncState) × (check_timeouts (pos 20) two ≡ some s)
    × (s.pending ≡ [])
    × ((p : ℕ)
        → p < two.next_promise
        → s.promises p ≡ (
            if is_waiting (two.promises p)
            then ready (record {
              error = with_message ErrorCode.timeout (codes "Request timed out");
              response = [];
            })
            else two.promises p))
unfolding register
check_timeouts_late_example = check_timeouts_late (pos 20) two two-IsValid (refl, (refl, tt))

check_timeouts_lem_example :
    (s : AsyncState) × (check_timeouts (pos 10) two ≡ some s)
    × (s.pending ≡ live (pos 10) two.pending)
    × (s.next_promise ≡ two.next_promise)
    × ((p : ℕ)
        → s.promises p ≡ (
            if is_due (pos 10) two.pending p
            then ready (record {
              error = with_message ErrorCode.timeout (codes "Request timed out");
              response = [];
            })
            else two.promises p))
    × IsValid s
check_timeouts_lem_example = check_timeouts_lem (pos 10) two two-IsValid

abbrev reply : Bytes
reply = codes "{\"id\":\"2\",\"result\":5}"

register-handle_response_example :
    (s : AsyncState) × (handle_response reply two ≡ some s)
    × (s.promises one.next_promise ≡ ready (record { error = Error.ok; response = reply }))
    × ((p : ℕ) → p ≢ one.next_promise → s.promises p ≡ one.promises p)
    × (lookup (codes "2") s.pending ≡ none)
unfolding extract_id register lookup is_empty
register-handle_response_example =
    register-handle_response (codes "2") reply (pos 20) one one-IsValid refl refl refl

register_breaks_older_example :
    (s : AsyncState) × (run events (register (codes "1") (pos 40) one) ≡ some s)
    × (s.promises 0 ≡ broken)
unfolding register lookup
register_breaks_older_example =
    register_breaks_older (codes "1") (pos 40) one (record { promise = 0; deadline = pos 10 })
      events one-IsValid refl
