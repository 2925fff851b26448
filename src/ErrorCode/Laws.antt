-- ===== src/ErrorCode/Laws.antt =====
-- The casts between ErrorCode and int, and the name table.
use stdiobus_cpp.Prelude.{◌≡◌, ◌↔◌, ◌⊎◌, arith, true, false, codes}
use stdiobus_cpp.Prelude.Int.{ℤ, pos, negsuc, neg}
use stdiobus_cpp.ErrorCode.{unnamed, value, cast, error_code_name, is_retryable, is_failure}

-- A cast from int loses nothing: casting back gives the same int, whatever it is.
pub value-cast : (n : ℤ) → value (cast n) ≡ n
unfolding value cast
value-cast (pos n) = ground arith
value-cast (negsuc n) = ground arith

-- A code fails exactly when the int it was cast from is not zero.
pub is_failure-cast : (n : ℤ) → (is_failure (cast n) ≡ false) ↔ (n ≡ pos 0)
unfolding is_failure cast
is_failure-cast (pos n) = (λ e. ground arith, λ e. ground arith)
is_failure-cast (negsuc n) = (λ e. ground arith, λ e. ground arith)

-- A code that is safe to retry is -2, -4 or -20 as an int.
pub is_retryable-cast :
    (n : ℤ) → (is_retryable (cast n) ≡ true) ↔ ((n ≡ neg 2) ⊎ (n ≡ neg 4) ⊎ (n ≡ neg 20))
unfolding is_retryable cast
is_retryable-cast (pos n) = (λ e. ground arith, λ e. ground arith)
is_retryable-cast (negsuc n) = (λ e. ground arith, λ e. ground arith)

-- The name tells which enumerator a code is, and is "Unknown" for exactly the other values.
pub cast-name_unknown :
    (n : ℤ) → (error_code_name (cast n) ≡ codes "Unknown") ↔ (cast n ≡ unnamed n)
unfolding error_code_name cast
cast-name_unknown (pos n) = (λ e. ground arith, λ e. ground arith)
cast-name_unknown (negsuc n) = (λ e. ground arith, λ e. ground arith)
