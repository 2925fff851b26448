-- ===== src/Tests/Deadlines.antt =====
-- A deadline in 64 bits.
use stdiobus_cpp.Prelude.{[], ◌+◌, ◌*◌, ◌≡◌, some, codes, arith, leb, if◌then◌else◌}
use stdiobus_cpp.Prelude.Int.{pos}
use stdiobus_cpp.Error.{with_message}
use stdiobus_cpp.ErrorCode
use stdiobus_cpp.Async.Pending.{AsyncState, waiting, ready, check_timeouts, start}
use stdiobus_cpp.Async.Pending.Invariant.{start-IsValid}
use stdiobus_cpp.Async.Deadline.{register_for}
use stdiobus_cpp.Async.Deadline.Expiry.{register_for-check_timeouts}

register_for-check_timeouts_example :
    (s1 s2 : AsyncState) × (register_for (codes "1") (pos 5) (pos 30000) start ≡ some s1)
    × (check_timeouts (pos 30000000005) s1 ≡ some s2)
    × (s2.promises start.next_promise ≡ (
        if leb (5 + 30000 * 1000000) 30000000005
        then ready (record {
          error = with_message ErrorCode.timeout (codes "Request timed out");
          response = [];
        })
        else waiting))
register_for-check_timeouts_example =
    register_for-check_timeouts (codes "1") 5 30000 30000000005 start start-IsValid (omega arith)
