-- ===== src/Async/Id/Decimal/Digits.antt =====
-- The text of std::to_string.
use mathlib.Core.Logic.{dif_pos, dif_neg}
use mathlib.Core.WellFounded.{Acc}
use mathlib.Core.List.{cons-ne-nil}
use native.Mathlib.Bridge.{le_prop}
use stdiobus_cpp.Prelude.{
  ℕ, ◌+◌, ◌*◌, ◌-◌, ◌/◌, ◌%◌, ◌<◌, ◌≡◌, ◌≢◌, ◌∙◌, sym, ap, true, [], ◌∷◌, Bytes, All, arith,
  Bool-cases, inl, inr, dec_lt, ◌==◌,
}
use stdiobus_cpp.Prelude.Order.{lt_wf}
use stdiobus_cpp.Async.Id.{is_numeric}
use stdiobus_cpp.Async.Id.Decimal.{tenth_lt, emit_digits, to_string}

-- What holds of the text so far, and is kept by one more digit, holds of the result.
emit_digits_inv :
    (P : Bytes → Type 0)
    → ((n : ℕ) (out : Bytes) → P out → P ((b'0' + n % 10) ∷ out))
    → (n : ℕ) (w : Acc ◌<◌ n) (out : Bytes) → P out
    → P (emit_digits n w out)
unfolding emit_digits
emit_digits_inv P keep n (Acc.intro _ smaller) out h = elim (dec_lt 0 n) [
  | yes p ↦
      rw (dif_pos _ le_prop p)
        (emit_digits_inv P keep (n / 10) (smaller (n / 10) (tenth_lt p)) _ (keep n out h))
  | no p ↦ rw (dif_neg _ p) h
]

-- A positive number has a first round.
emit_digits_first :
    (P : Bytes → Type 0)
    → ((n : ℕ) (out : Bytes) → P out → P ((b'0' + n % 10) ∷ out))
    → (n : ℕ) (w : Acc ◌<◌ n) (out : Bytes) → 0 < n
    → P ((b'0' + n % 10) ∷ out)
    → P (emit_digits n w out)
unfolding emit_digits
emit_digits_first P keep n (Acc.intro _ smaller) out p h =
    rw (dif_pos _ le_prop p) (emit_digits_inv P keep (n / 10) (smaller (n / 10) (tenth_lt p)) _ h)

digit_numeric : (n : ℕ) → is_numeric (b'0' + n % 10) ≡ true
digit_numeric n = ground arith

-- A property of non-empty texts that one more digit keeps holds of every decimal text.
pub to_string_inv :
    (P : Bytes → Type 0)
    → ((n : ℕ) (out : Bytes) → P out → P ((b'0' + n % 10) ∷ out))
    → ((n : ℕ) → P ((b'0' + n % 10) ∷ []))
    → (n : ℕ) → P (to_string n)
unfolding to_string
to_string_inv P keep one n = elim (Bool-cases (n == 0)) [
  | inl e ↦ rw e (one 0)
  | inr e ↦ rw e (emit_digits_first P keep n (lt_wf.apply n) [] (ground arith) (one n))
]

-- The text is digits only.
pub to_string-digits : (n : ℕ) → All (λ c. is_numeric c ≡ true) (to_string n)
to_string-digits =
    to_string_inv (All (λ c. is_numeric c ≡ true)) (λ n out h. (digit_numeric n, h))
      (λ n. (digit_numeric n, tt))

-- There is at least one.
pub to_string-ne-nil : (n : ℕ) → to_string n ≢ []
to_string-ne-nil =
    to_string_inv (λ s. s ≢ []) (λ n out h. cons-ne-nil _ out) (λ n. cons-ne-nil _ [])

-- The number that digits spell behind `acc`.
unfoldable pub spelled : ℕ → Bytes → ℕ
spelled acc [] = acc
spelled acc (c ∷ s) = spelled (acc * 10 + (c - b'0')) s

spelled-emit_digits :
    (n : ℕ) (w : Acc ◌<◌ n) (out : Bytes) → spelled 0 (emit_digits n w out) ≡ spelled n out
unfolding emit_digits spelled
spelled-emit_digits n (Acc.intro _ smaller) out = elim (dec_lt 0 n) [
  | yes p ↦ rw (dif_pos _ le_prop p) (
      spelled-emit_digits (n / 10) (smaller (n / 10) (tenth_lt p)) ((b'0' + n % 10) ∷ out)
      ∙ ap (λ k. spelled k out) (omega arith))
  | no p ↦ rw (dif_neg _ p) (ap (λ k. spelled k out) (omega arith))
]

-- The text spells the number, so two numbers with one text are equal.
pub spelled-to_string : (n : ℕ) → spelled 0 (to_string n) ≡ n
unfolding to_string spelled
spelled-to_string n = elim (Bool-cases (n == 0)) [
  | inl e ↦ rw e (ground arith)
  | inr e ↦ rw e (spelled-emit_digits n (lt_wf.apply n) [])
]

pub to_string_ne : (m n : ℕ) → m ≢ n → to_string m ≢ to_string n
to_string_ne m n ne e = ne (sym (spelled-to_string m) ∙ ap (spelled 0) e ∙ spelled-to_string n)
