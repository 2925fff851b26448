-- ===== src/Error/Laws.antt =====
-- The errors that return codes of the kernel become.
use stdiobus_cpp.Prelude.{◌≡◌, ◌↔◌, ◌≢◌, sym, ◌∙◌, refl, arith, codes, Bool-cases, inl, inr}
use stdiobus_cpp.Prelude.Int.{ℤ, pos}
use stdiobus_cpp.ErrorCode.{error_code_name, cast, is_failure}
use stdiobus_cpp.ErrorCode.Laws.{is_failure-cast}
use stdiobus_cpp.Embed.{CError, error_value}
use stdiobus_cpp.Error.{
  Exception, from_c, is_error, throw_if_error, returns, throws, of_error, message,
}

throws_ne : (x : Exception) → throws x ≢ returns
throws_ne x e = cc e

-- The error of a return code is thrown exactly when the code is not zero, and the exception carries
-- the code's name as its text.
pub throw_if_error-from_c :
    (n : ℤ)
    → ((throw_if_error (from_c n) ≡ returns) ↔ (n ≡ pos 0))
      × ((of_error (from_c n)).what_msg ≡ error_code_name (cast n))
unfolding throw_if_error from_c is_error of_error message
throw_if_error-from_c n = (
  elim (Bool-cases (is_failure (cast n))) [
    | inl e ↦
        let thrown : throw_if_error (from_c n) ≡ throws (of_error (from_c n)) =
          rw (e, throw_if_error, is_error) refl in
        (λ x. absurd (throws_ne (of_error (from_c n)) (sym thrown ∙ x)), λ x. rw x refl)
    | inr e ↦ (λ x. (is_failure-cast n).0 e, λ x. rw (e, throw_if_error, is_error) refl)
  ],
  refl,
)

-- Of the error constants of the C header exactly STDIO_BUS_ERR_INVALID has no ErrorCode.
pub error_value-unknown :
    (e : CError) → (error_code_name (cast (error_value e)) ≡ codes "Unknown") ↔ (e ≡ CError.invalid)
unfolding error_code_name cast
error_value-unknown CError.config = (λ x. ground arith, λ x. ground arith)
error_value-unknown CError.worker = (λ x. ground arith, λ x. ground arith)
error_value-unknown CError.routing = (λ x. ground arith, λ x. ground arith)
error_value-unknown CError.buffer = (λ x. ground arith, λ x. ground arith)
error_value-unknown CError.invalid = (λ x. ground arith, λ x. ground arith)
error_value-unknown CError.state = (λ x. ground arith, λ x. ground arith)
