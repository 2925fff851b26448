-- ===== src/Examples/Runner/Arguments/Text.antt =====
-- A port in decimal text, through std::atoi.
use stdiobus_cpp.Prelude.{
  ℕ, ◌≡◌, ◌≢◌, refl, ap, ◌+◌, ◌*◌, ◌-◌, ◌<◌, ◌^◌, ◌%◌, true, false, List, ◌∷◌, [], Bytes, codes,
  All, arith, ◌==◌, some,
}
use stdiobus_cpp.Prelude.Int.{pos}
use stdiobus_cpp.Async.Id.{is_digit}
use stdiobus_cpp.Async.Id.Decimal.{to_string}
use stdiobus_cpp.Async.Id.Decimal.Digits.{
  to_string_inv, to_string-ne-nil, spelled, spelled-to_string,
}
use stdiobus_cpp.Examples.Runner.Arguments.{
  is_space, digits_value, signed_value, text_value, atoi, Settings, parse, same_text,
}

decimal_digit : (n : ℕ) → is_digit (b'0' + n % 10) ≡ true
decimal_digit n = ground arith

to_string-IsDigit : (n : ℕ) → All (λ c. is_digit c ≡ true) (to_string n)
to_string-IsDigit =
    to_string_inv (All (λ c. is_digit c ≡ true)) (λ n out h. (decimal_digit n, h))
      (λ n. (decimal_digit n, tt))

digits_value-spelled :
    (acc : ℕ) (s : Bytes) → All (λ c. is_digit c ≡ true) s → digits_value acc s ≡ spelled acc s
unfolding digits_value spelled
digits_value-spelled acc [] h = refl
digits_value-spelled acc (c ∷ s) h =
    rw (h.0, digits_value) (digits_value-spelled (acc * 10 + (c - b'0')) s h.1)

digit-not_space : (c : ℕ) → is_digit c ≡ true → is_space c ≡ false
digit-not_space c h = ground arith

digit-not_sign : (c : ℕ) → is_digit c ≡ true → ((c == b'-') ≡ false) × ((c == b'+') ≡ false)
digit-not_sign c h = (ground arith, ground arith)

text_value-digits :
    (s : Bytes) → s ≢ [] → All (λ c. is_digit c ≡ true) s → text_value s ≡ pos (spelled 0 s)
unfolding text_value signed_value
text_value-digits [] ne h = absurd (ne refl)
text_value-digits (c ∷ s) ne h =
    rw
      (
        digit-not_space c h.0,
        text_value,
        signed_value,
        (digit-not_sign c h.0).0,
        (digit-not_sign c h.0).1,
      )
      (ap pos (digits_value-spelled 0 (c ∷ s) h))

atoi-to_string : (n : ℕ) → n < 2 ^ 31 → atoi (to_string n) ≡ some (pos n)
unfolding atoi
atoi-to_string n h =
    rw
      (
        text_value-digits (to_string n) (to_string-ne-nil n) (to_string-IsDigit n),
        spelled-to_string n,
      )
      (ground arith)

-- For a number that fits an int, where the argument loop comes to `--tcp` with the number's decimal
-- text behind it, with whatever settings so far: it sets the port to the low 16 bits of the number,
-- leaves the other settings, and goes on behind the two arguments.
pub parse-tcp :
    (n : ℕ) (rest : List Bytes) (a : Settings)
    → n < 2 ^ 31
    → parse (codes "--tcp" ∷ to_string n ∷ rest) a ≡ parse rest (record a { tcp_port = n % 2 ^ 16 })
unfolding parse same_text
parse-tcp n rest a h = rw (parse, atoi-to_string n h) refl
