-- ===== src/Types/Laws.antt =====
-- Casts and names of State, and durations.
use native.Mathlib.Nat.{div-mul-le_self, div-lt_iff_lt-mul}
use stdiobus_cpp.Prelude.{ℕ, ◌+◌, ◌*◌, ◌/◌, ◌^◌, ◌<◌, ◌≤◌, ◌≡◌, ◌↔◌, refl, arith, codes}
use stdiobus_cpp.Prelude.Int.{ℤ, pos, negsuc, scale, div_trunc, to_int-eq_of_IsInt}
use stdiobus_cpp.Types.{state_value, cast_state, state_name, duration_cast_ms, to_ms}

-- A cast from int to State loses nothing.
pub state_value-cast_state : (n : ℤ) → state_value (cast_state n) ≡ n
unfolding state_value cast_state
state_value-cast_state (pos n) = ground arith
state_value-cast_state (negsuc n) = refl

-- state_name is "Unknown" for exactly the ints outside 0..4.
pub state_name-unknown : (n : ℕ) → (state_name (cast_state (pos n)) ≡ codes "Unknown") ↔ (5 ≤ n)
unfolding state_name cast_state
state_name-unknown n = (λ e. ground arith, λ e. ground arith)

-- to_ms of a duration that is not negative, whose milliseconds fit an int, rounds down to a
-- millisecond: with a tick of num/den seconds, the result times den is at most the count times
-- 1000 num, and one more is too much.
pub to_ms_lem :
    (num den count : ℕ)
    → 0 < den
    → count * (num * 1000) / den < 2 ^ 31
    → (n : ℕ) × (to_ms num den (pos count) ≡ pos n)
      × (n * den ≤ count * (num * 1000))
      × (count * (num * 1000) < (n + 1) * den)
unfolding to_ms duration_cast_ms scale div_trunc
to_ms_lem num den count d h = (
  count * (num * 1000) / den,
  to_int-eq_of_IsInt _ (h, omega arith),
  div-mul-le_self (count * (num * 1000)) den,
  (div-lt_iff_lt-mul d).0 (omega arith),
)
