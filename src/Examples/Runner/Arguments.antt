-- ===== src/Examples/Runner/Arguments.antt =====
-- "Parse arguments" in main of examples/runner.cpp, with std::atoi and the cast to uint16_t.
pub mod Text
use stdiobus_cpp.Prelude.{
  ℕ, Bool, true, false, Option, none, some, List, [], ◌∷◌, Bytes, codes, ◌+◌, ◌*◌, ◌-◌, ◌%◌, ◌^◌,
  ◌==◌, leb, ltb, ◌||◌, ◌&&◌, if◌then◌else◌,
}
use stdiobus_cpp.Prelude.Int.{ℤ, pos, negsuc, neg, leb_ℤ, ltb_ℤ}
use stdiobus_cpp.Async.Id.{is_digit}

pub record Settings : Type 0 where
  pub config_path : Option Bytes
  pub tcp_port : ℕ
  pub unix_path : Option Bytes

abbrev pub no_settings : Settings
no_settings = record { config_path = none; tcp_port = 0; unix_path = none }

-- std::isspace, in the C locale
abbrev pub is_space : ℕ → Bool
is_space c = (c == b' ') || (leb 9 c && leb c 13)

-- The number that the digits in front of the text spell behind `acc`.
unfoldable pub digits_value : ℕ → Bytes → ℕ
digits_value acc [] = acc
digits_value acc (c ∷ s) = elim (is_digit c) [
  | true ↦ digits_value (acc * 10 + (c - b'0')) s
  | false ↦ acc
]

-- The sign and the digits.
unfoldable pub signed_value : Bytes → ℤ
unfolding digits_value
signed_value [] = pos 0
signed_value (c ∷ s) =
    if c == b'-'
    then neg (digits_value 0 s)
    else if c == b'+'
    then pos (digits_value 0 s)
    else pos (digits_value 0 (c ∷ s))

unfoldable pub text_value : Bytes → ℤ
unfolding signed_value
text_value [] = pos 0
text_value (c ∷ s) = elim (is_space c) [ true ↦ text_value s | false ↦ signed_value (c ∷ s) ]

-- A value that an int cannot hold is undefined.
unfoldable pub atoi : Bytes → Option ℤ
unfolding text_value
atoi s =
    if leb_ℤ (neg (2 ^ 31)) (text_value s) && ltb_ℤ (text_value s) (pos (2 ^ 31))
    then some (text_value s)
    else none

-- static_cast<uint16_t>
abbrev pub to_uint16 : ℤ → ℕ
to_uint16 (pos n) = n % 2 ^ 16
to_uint16 (negsuc n) = 2 ^ 16 - 1 - n % 2 ^ 16

-- What the loop ends with: the usage was asked for, atoi was undefined, or the three variables.
pub data Parsed : Type 0 where
  help : Parsed
  overflow : Parsed
  parsed : Settings → Parsed

-- strcmp(text, option) == 0
unfoldable pub same_text : Bytes → Bytes → Bool
same_text [] [] = true
same_text [] (d ∷ p) = false
same_text (c ∷ s) [] = false
same_text (c ∷ s) (d ∷ p) = (c == d) && same_text s p

abbrev pub asks_help : Bytes → Bool
asks_help arg = same_text arg (codes "--help") || same_text arg (codes "-h")

-- The loop over the arguments behind argv[0].
unfoldable pub parse : List Bytes → Settings → Parsed
unfolding same_text atoi
parse [] a = parsed a
parse (arg ∷ []) a = if asks_help arg then help else parsed a
parse (arg ∷ value ∷ rest) a = elim (same_text arg (codes "--config")) [
  | true ↦ parse rest (record a { config_path = some value })
  | false ↦ (elim (same_text arg (codes "--tcp")) [
    | true ↦ (elim (atoi value) [
      | none ↦ overflow
      | some n ↦ parse rest (record a { tcp_port = to_uint16 n })
    ])
    | false ↦ (elim (same_text arg (codes "--unix")) [
      | true ↦ parse rest (record a { unix_path = some value })
      | false ↦ (elim (asks_help arg) [ true ↦ help | false ↦ parse (value ∷ rest) a ])
    ])
  ])
]
