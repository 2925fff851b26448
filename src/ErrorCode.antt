-- ===== src/ErrorCode.antt =====
-- enum class ErrorCode of include/stdiobus/error.hpp, with its name table and retry policy.
-- The enum's underlying type is int, so a cast from any int is a value of it: `unnamed` holds the
-- values that have no enumerator.
pub mod Laws
use stdiobus_cpp.Prelude.{ℕ, suc, Bool, true, false, Bytes, codes, ◌==◌, if◌then◌else◌}
use stdiobus_cpp.Prelude.Int.{ℤ, pos, negsuc, neg}

pub data ErrorCode : Type 0 where
  ok error again eof full not_found invalid config worker routing buffer state : ErrorCode
  timeout policy_denied : ErrorCode
  unnamed : ℤ → ErrorCode

-- static_cast<int>(code)
unfoldable pub value : ErrorCode → ℤ
value ok = pos 0
value error = neg 1
value again = neg 2
value eof = neg 3
value full = neg 4
value not_found = neg 5
value invalid = neg 6
value config = neg 10
value worker = neg 11
value routing = neg 12
value buffer = neg 13
value state = neg 15
value timeout = neg 20
value policy_denied = neg 21
value (unnamed n) = n

-- The enumerator whose value is -(n + 1), if there is one.
named : ℕ → ErrorCode
named n =
    if n == 0
    then error
    else if n == 1
    then again
    else if n == 2
    then eof
    else if n == 3
    then full
    else if n == 4
    then not_found
    else if n == 5
    then invalid
    else if n == 9
    then config
    else if n == 10
    then worker
    else if n == 11
    then routing
    else if n == 12
    then buffer
    else if n == 14
    then state
    else if n == 19
    then timeout
    else if n == 20
    then policy_denied
    else unnamed (negsuc n)

-- static_cast<ErrorCode>(code)
unfoldable pub cast : ℤ → ErrorCode
unfolding named
cast (pos n) = if n == 0 then ok else unnamed (pos n)
cast (negsuc n) = named n

unfoldable pub error_code_name : ErrorCode → Bytes
error_code_name ok = codes "Ok"
error_code_name error = codes "Error"
error_code_name again = codes "Again"
error_code_name eof = codes "Eof"
error_code_name full = codes "Full"
error_code_name not_found = codes "NotFound"
error_code_name invalid = codes "Invalid"
error_code_name config = codes "Config"
error_code_name worker = codes "Worker"
error_code_name routing = codes "Routing"
error_code_name buffer = codes "Buffer"
error_code_name state = codes "State"
error_code_name timeout = codes "Timeout"
error_code_name policy_denied = codes "PolicyDenied"
error_code_name (unnamed n) = codes "Unknown"

unfoldable pub is_retryable : ErrorCode → Bool
is_retryable again = true
is_retryable full = true
is_retryable timeout = true
is_retryable _ = false

-- code != ErrorCode::Ok
unfoldable pub is_failure : ErrorCode → Bool
is_failure ok = false
is_failure _ = true
