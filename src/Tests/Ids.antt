-- ===== src/Tests/Ids.antt =====
-- Ids of concrete messages.
use stdiobus_cpp.Prelude.{◌≡◌, refl, ◌∷◌, ◌++◌, codes, arith, false, is_empty, ◌+◌, ◌%◌, ◌^◌, find}
use stdiobus_cpp.Async.Id.{member, extract_id, extract_or_inject_id}
use stdiobus_cpp.Async.Id.Decimal.{to_string}
use stdiobus_cpp.Async.Id.Extract.{keyed, extract_id-number}
use stdiobus_cpp.Async.Id.Inject.{extract_id-extract_or_inject_id}

-- {"a" : 0, "id" : -42}
extract_id-number_example :
    extract_id (keyed (codes "{\"a\" : 0, ") (codes " ") (codes " ") (codes "-42" ++ codes "}"))
    ≡ codes "-42"
unfolding find
extract_id-number_example =
    extract_id-number (codes "{\"a\" : 0, ") (codes " ") (codes " ") (codes "-42") (codes "}") refl
      (omega arith, tt) (refl, tt) (λ e. cc e) (refl, (refl, (refl, tt))) refl

extract_id-extract_or_inject_id_example :
    let r = extract_or_inject_id (codes "" ++ b'{' ∷ codes "\"method\":1}") 12 in
    (r.id ≡ to_string 12)
    × (r.json ≡ codes "" ++ (b'{' ∷ (member (to_string 12) ++ codes "\"method\":1}")))
    × (extract_id r.json ≡ r.id)
    × (is_empty r.id ≡ false)
    × (r.next_id ≡ (12 + 1) % 2 ^ 64)
unfolding extract_id find
extract_id-extract_or_inject_id_example =
    extract_id-extract_or_inject_id (codes "") (codes "\"method\":1}") 12 tt refl refl
