-- ===== src/Examples/Async/Sent/Text.antt =====
-- The id of a request of async.cpp is its number.
use stdiobus_cpp.Prelude.{
  ℕ, ◌≡◌, refl, ap, ◌∙◌, true, none, [], ◌∷◌, ◌++◌, Bytes, codes, All, arith, find, starts_with,
  append_assoc,
}
use stdiobus_cpp.Async.Id.{id_key, is_numeric, extract_id}
use stdiobus_cpp.Async.Id.Search.{FirstKey}
use stdiobus_cpp.Async.Id.Extract.{extract_id-number, keyed}
use stdiobus_cpp.Async.Id.Decimal.{to_string}
use stdiobus_cpp.Async.Id.Decimal.Digits.{to_string-digits, to_string-ne-nil}
use stdiobus_cpp.Examples.Async.{request_text}

-- There is no key in a number.
number_no_key :
    (digits rest : Bytes)
    → All (λ c. is_numeric c ≡ true) digits
    → find rest id_key ≡ none
    → find (digits ++ rest) id_key ≡ none
unfolding find starts_with
number_no_key [] rest h e = e
number_no_key (c ∷ digits) rest h e =
    let x = h.0 in rw (number_no_key digits rest h.1 e) (ground arith)

abbrev opening : Bytes
opening = codes "{\"jsonrpc\":\"2.0\",\"method\":\"echo\",\"params\":{\"n\":"

opening_no_key : (rest : Bytes) → find rest id_key ≡ none → find (opening ++ rest) id_key ≡ none
unfolding find starts_with
opening_no_key rest e = rw e refl

abbrev before_id : ℕ → Bytes
before_id i = opening ++ (to_string i ++ codes "},")

behind_no_key : find (codes "},\"id") id_key ≡ none
unfolding find starts_with
behind_no_key = refl

before_id-FirstKey : (i : ℕ) → FirstKey (before_id i)
before_id-FirstKey i =
    rw
      (
        append_assoc opening (to_string i ++ codes "},") (codes "\"id"),
        append_assoc (to_string i) (codes "},") (codes "\"id"),
      )
      (opening_no_key _
        (number_no_key (to_string i) (codes "},\"id") (to_string-digits i) behind_no_key))

request_text-keyed : (i : ℕ) → request_text i ≡ keyed (before_id i) [] [] (to_string i ++ codes "}")
unfolding request_text
request_text-keyed i = simp append_assoc

pub extract_id-request_text : (i : ℕ) → extract_id (request_text i) ≡ to_string i
extract_id-request_text i =
    ap extract_id (request_text-keyed i)
    ∙ extract_id-number (before_id i) [] [] (to_string i) (codes "}") (before_id-FirstKey i) tt tt
        (to_string-ne-nil i) (to_string-digits i) refl
