-- ===== src/Tests/Codes.antt =====
-- Return codes and states at concrete ints.
use stdiobus_cpp.Prelude.{◌≡◌, ◌↔◌, codes, ◌≤◌, ℕ, ◌<◌, ◌+◌, ◌*◌, arith}
use stdiobus_cpp.Prelude.Int.{pos}
use stdiobus_cpp.ErrorCode.{cast, error_code_name}
use stdiobus_cpp.Embed.{CError, error_value}
use stdiobus_cpp.Error.Laws.{error_value-unknown}
use stdiobus_cpp.Types.{to_ms}
use stdiobus_cpp.Types.Laws.{to_ms_lem}

error_value-unknown_example :
    (error_code_name (cast (error_value CError.invalid)) ≡ codes "Unknown")
    ↔ (CError.invalid ≡ CError.invalid)
error_value-unknown_example = error_value-unknown CError.invalid

-- 1500 microseconds
to_ms_lem_example :
    (n : ℕ) × (to_ms 1 1000000 (pos 1500) ≡ pos n)
    × (n * 1000000 ≤ 1500 * (1 * 1000))
    × (1500 * (1 * 1000) < (n + 1) * 1000000)
to_ms_lem_example = to_ms_lem 1 1000000 1500 (omega arith) (omega arith)
