-- ===== src/Error.antt =====
-- class Error, Exception and throw_if_error of include/stdiobus/error.hpp.
pub mod Laws
use stdiobus_cpp.Prelude.{Bool, true, false, [], Bytes, is_empty, if◌then◌else◌}
use stdiobus_cpp.Prelude.Int.{ℤ}
use stdiobus_cpp.ErrorCode
use stdiobus_cpp.ErrorCode.{ErrorCode}

pub record Error : Type 0 where
  pub code : ErrorCode
  pub text : Bytes

-- Error(ErrorCode code, std::string message)
abbrev pub with_message : ErrorCode → Bytes → Error
with_message code message = record { code = code; text = message }

-- Error(ErrorCode code)
abbrev pub of_code : ErrorCode → Error
of_code code = record { code = code; text = [] }

-- Error::ok(), and the default constructor.
abbrev pub ok : Error
ok = of_code ErrorCode.ok

-- explicit operator bool: an error occurred.
unfoldable pub is_error : Error → Bool
unfolding ErrorCode.is_failure
is_error e = ErrorCode.is_failure e.code

unfoldable pub message : Error → Bytes
unfolding is_empty ErrorCode.error_code_name
message e = if is_empty e.text then ErrorCode.error_code_name e.code else e.text

unfoldable pub is_retryable : Error → Bool
unfolding ErrorCode.is_retryable
is_retryable e = ErrorCode.is_retryable e.code

-- Error::from_c: the return code of a C function.
unfoldable pub from_c : ℤ → Error
unfolding ErrorCode.cast
from_c code = of_code (ErrorCode.cast code)

-- Built with STDIOBUS_CPP_EXCEPTIONS only.
pub record Exception : Type 0 where
  pub error : Error
  pub what_msg : Bytes

-- Exception(Error error)
unfoldable pub of_error : Error → Exception
unfolding message
of_error e = record { error = e; what_msg = message e }

-- A call that may throw.
pub data Outcome : Type 0 where
  returns : Outcome
  throws : Exception → Outcome

unfoldable pub throw_if_error : Error → Outcome
unfolding is_error of_error
throw_if_error err = if is_error err then throws (of_error err) else returns
