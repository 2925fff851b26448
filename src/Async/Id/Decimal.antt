-- ===== src/Async/Id/Decimal.antt =====
-- std::to_string of a uint64_t: the decimal digits, without leading zeros.
pub mod Digits
use mathlib.Core.Logic.{dite}
use mathlib.Core.WellFounded.{Acc}
use stdiobus_cpp.Prelude.{
  ℕ, ◌+◌, ◌/◌, ◌%◌, ◌<◌, ◌≡◌, [], ◌∷◌, Bytes, arith, dec_lt, ◌==◌, if◌then◌else◌,
}
use stdiobus_cpp.Prelude.Order.{lt_wf}

pub tenth_lt : {n : ℕ} → 0 < n → n / 10 < n
tenth_lt h = omega arith

-- The digits of n in front of `out`; none for 0.
unfoldable pub emit_digits : (n : ℕ) → Acc ◌<◌ n → Bytes → Bytes
emit_digits n (Acc.intro _ smaller) out =
    dite (dec_lt 0 n)
      (λ h. emit_digits (n / 10) (smaller (n / 10) (tenth_lt h)) ((b'0' + n % 10) ∷ out)) (λ _. out)

unfoldable pub to_string : ℕ → Bytes
unfolding emit_digits lt_wf dec_lt
to_string n = if n == 0 then b'0' ∷ [] else emit_digits n (lt_wf.apply n) []
