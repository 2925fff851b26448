-- ===== src/Async/Id/Inject.antt =====
-- extract_or_inject_id, and extract_id on the text that it leaves.
use stdiobus_cpp.Prelude.{
  Bool-cases, inl, inr, ℕ, ◌+◌, ◌%◌, ◌^◌, ◌≡◌, ◌≢◌, refl, ap, ◌∙◌, false, none, [], ◌∷◌, ◌++◌,
  Bytes, length, arith, find, insert_at, is_empty, length-append, append_assoc, take-length-append,
  drop-length-append, sym,
}
use stdiobus_cpp.Async.Id.{id_key, member, extract_id, inject, extract_or_inject_id}
use stdiobus_cpp.Async.Id.Decimal.{to_string}
use stdiobus_cpp.Async.Id.Decimal.Digits.{to_string-digits, to_string-ne-nil}
use stdiobus_cpp.Async.Id.Search.{Lacks, FirstKey-brace, find_char-Lacks}
use stdiobus_cpp.Async.Id.Extract.{extract_id-number, keyed}

insert_split :
    (pre rest new : Bytes)
    → insert_at (pre ++ b'{' ∷ rest) (length pre + 1) new ≡ pre ++ (b'{' ∷ (new ++ rest))
unfolding insert_at
insert_split pre rest new =
    let n : length pre + 1 ≡ length (pre ++ b'{' ∷ []) =
      omega (arith, length-append pre (b'{' ∷ [])) in
    let split : pre ++ b'{' ∷ rest ≡ (pre ++ b'{' ∷ []) ++ rest =
      sym (append_assoc pre (b'{' ∷ []) rest) in
    rw
      (
        n,
        split,
        take-length-append (pre ++ b'{' ∷ []) rest,
        drop-length-append (pre ++ b'{' ∷ []) rest,
        append_assoc pre (b'{' ∷ []) (new ++ rest),
      )
      refl

-- Where the first brace of a text stands behind `pre`, the member goes right behind it.
pub inject_at :
    (id pre rest : Bytes)
    → Lacks b'{' pre
    → inject id (pre ++ b'{' ∷ rest) ≡ pre ++ (b'{' ∷ (member id ++ rest))
unfolding inject insert_at
inject_at id pre rest h =
    rw (find_char-Lacks b'{' pre rest h, inject) (insert_split pre rest (member id))

member-keyed :
    (pre id rest : Bytes)
    → pre ++ (b'{' ∷ (member id ++ rest)) ≡ keyed (pre ++ b'{' ∷ []) [] [] (id ++ b',' ∷ rest)
member-keyed pre id rest = simp append_assoc

extract_id-inject :
    (pre rest : Bytes) (n : ℕ)
    → Lacks b'{' pre
    → find pre id_key ≡ none
    → extract_id (inject (to_string n) (pre ++ b'{' ∷ rest)) ≡ to_string n
extract_id-inject pre rest n brace key =
    ap extract_id (inject_at (to_string n) pre rest brace ∙ member-keyed pre (to_string n) rest)
    ∙ extract_id-number (pre ++ b'{' ∷ []) [] [] (to_string n) (b',' ∷ rest)
        (FirstKey-brace pre key) tt tt (to_string-ne-nil n) (to_string-digits n) refl

pub is_empty_ne : (s : Bytes) → s ≢ [] → is_empty s ≡ false
is_empty_ne [] h = absurd (h refl)
is_empty_ne (c ∷ s) h = unfold is_empty in refl

-- A message with no id, whose text before its first brace has no "id" key, gets the counter's value
-- as its id: the member stands right behind that brace, extract_id finds it in the new text, and the
-- counter goes on by one.
pub extract_id-extract_or_inject_id :
    (pre rest : Bytes) (next_id : ℕ)
    → Lacks b'{' pre
    → find pre id_key ≡ none
    → extract_id (pre ++ b'{' ∷ rest) ≡ []
    → let r = extract_or_inject_id (pre ++ b'{' ∷ rest) next_id in
      (r.id ≡ to_string next_id)
      × (r.json ≡ pre ++ (b'{' ∷ (member (to_string next_id) ++ rest)))
      × (extract_id r.json ≡ r.id)
      × (is_empty r.id ≡ false)
      × (r.next_id ≡ (next_id + 1) % 2 ^ 64)
unfolding extract_or_inject_id
extract_id-extract_or_inject_id pre rest next_id brace key no_id =
    rw (no_id, extract_or_inject_id)
      (
        refl,
        inject_at (to_string next_id) pre rest brace,
        extract_id-inject pre rest next_id brace key,
        is_empty_ne _ (to_string-ne-nil next_id),
        refl,
      )

-- A message that has an id is sent as it is, under that id, and uses up no number.
pub extract_or_inject_id_kept :
    (json : Bytes) (next_id : ℕ)
    → is_empty (extract_id json) ≡ false
    → extract_or_inject_id json next_id
      ≡ record { id = extract_id json; json = json; next_id = next_id }
unfolding extract_or_inject_id
extract_or_inject_id_kept json next_id h = rw (h, extract_or_inject_id) refl

-- Every request gets an id that is not empty, whatever its message.
pub extract_or_inject_id_nonempty :
    (json : Bytes) (next_id : ℕ) → is_empty (extract_or_inject_id json next_id).id ≡ false
unfolding extract_or_inject_id
extract_or_inject_id_nonempty json next_id = elim (Bool-cases (is_empty (extract_id json))) [
  | inl e ↦ rw (e, extract_or_inject_id) (is_empty_ne _ (to_string-ne-nil next_id))
  | inr e ↦ rw (e, extract_or_inject_id) e
]
