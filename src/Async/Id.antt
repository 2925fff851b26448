-- ===== src/Async/Id.antt =====
-- AsyncBus::extract_id and AsyncBus::extract_or_inject_id, and std::to_string of an id.
pub mod Decimal
pub mod Search
pub mod Extract
pub mod Inject
use mathlib.Core.Bool.{◌&&◌, ◌||◌}
use stdiobus_cpp.Prelude.{
  ℕ, ◌+◌, ◌%◌, ◌^◌, Bool, Option, none, some, [], ◌∷◌, ◌++◌, Bytes, codes, take, drop, ◌==◌, leb,
  if◌then◌else◌, find, find_char, find_char_from, count_while, insert_at, is_empty,
}
use Decimal.{to_string}

-- "\"id\"", the key that is searched.
abbrev pub id_key : Bytes
id_key = codes "\"id\""

-- json[pos] == ' ' || json[pos] == '\t'
abbrev pub is_blank : ℕ → Bool
is_blank c = (c == b' ') || (c == 9)

-- std::isdigit(c), for an ASCII byte.
abbrev pub is_digit : ℕ → Bool
is_digit c = leb b'0' c && leb c b'9'

-- std::isdigit(json[pos]) || json[pos] == '-'
abbrev pub is_numeric : ℕ → Bool
is_numeric c = is_digit c || (c == b'-')

-- From `if (pos >= json.size())` on; the text is json from pos.
unfoldable pub value_at : Bytes → Bytes
unfolding find_char count_while
value_at [] = []
value_at (c ∷ s) =
    if c == b'"'
    then (elim (find_char s b'"') [ none ↦ [] | some end ↦ take end s ])
    else if is_numeric c
    then take (count_while is_numeric (c ∷ s)) (c ∷ s)
    else []

-- The position behind the blanks that follow pos.
unfoldable pub skip_blanks : Bytes → ℕ → ℕ
unfolding count_while
skip_blanks json pos = pos + count_while is_blank (drop pos json)

unfoldable pub extract_id : Bytes → Bytes
unfolding value_at skip_blanks find find_char_from
extract_id json = elim (find json id_key) [
  | none ↦ []
  | some key ↦ (elim (find_char_from json b':' key) [
    | none ↦ []
    | some colon ↦ value_at (drop (skip_blanks json (colon + 1)) json)
  ])
]

-- "\"id\":" + id + ","
abbrev pub member : Bytes → Bytes
member id = codes "\"id\":" ++ (id ++ codes ",")

-- The text that is left when `member id` is inserted behind the first opening brace.
unfoldable pub inject : Bytes → Bytes → Bytes
unfolding find_char insert_at
inject id json = elim (find_char json b'{') [
  | none ↦ json
  | some pos ↦ insert_at json (pos + 1) (member id)
]

-- What extract_or_inject_id leaves: the id, the text and next_id_, a uint64_t.
pub record Identified : Type 0 where
  pub id : Bytes
  pub json : Bytes
  pub next_id : ℕ

unfoldable pub extract_or_inject_id : Bytes → ℕ → Identified
unfolding extract_id inject to_string is_empty
extract_or_inject_id json next_id =
    if is_empty (extract_id json)
    then (record {
      id = to_string next_id;
      json = inject (to_string next_id) json;
      next_id = (next_id + 1) % 2 ^ 64;
    })
    else (record { id = extract_id json; json = json; next_id = next_id })
