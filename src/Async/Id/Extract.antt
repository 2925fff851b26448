-- ===== src/Async/Id/Extract.antt =====
-- What extract_id finds.
use stdiobus_cpp.Prelude.{
  ℕ, ◌+◌, ◌≡◌, ◌≢◌, refl, ap, ◌∙◌, Bool, true, false, Option, none, some, [], ◌∷◌, ◌++◌, Bytes,
  take, drop, length, All, All-append, arith, ◌==◌, if◌then◌else◌, find, find_char, find_char_from,
  count_while, length-append, append_assoc, take-length-append, drop-length-append,
  take-append-drop, Option-cases, inl, inr,
}
use stdiobus_cpp.Async.Id.{id_key, is_blank, is_numeric, value_at, skip_blanks, extract_id}
use stdiobus_cpp.Async.Id.Search.{
  Lacks, FirstKey, Stops, find-FirstKey, find_char-Lacks, count_while-Stops,
}

find_char_from-Lacks :
    (b : ℕ) (pre mid rest : Bytes)
    → Lacks b mid
    → find_char_from (pre ++ (mid ++ b ∷ rest)) b (length pre) ≡ some (length pre + length mid)
unfolding find_char_from
find_char_from-Lacks b pre mid rest h =
    rw (drop-length-append pre (mid ++ b ∷ rest), find_char-Lacks b mid rest h) refl

skip_blanks-Stops :
    (pre blanks rest : Bytes)
    → All (λ c. is_blank c ≡ true) blanks
    → Stops is_blank rest
    → drop (skip_blanks (pre ++ (blanks ++ rest)) (length pre)) (pre ++ (blanks ++ rest)) ≡ rest
unfolding skip_blanks
skip_blanks-Stops pre blanks rest h stop =
    rw
      (
        drop-length-append pre (blanks ++ rest),
        count_while-Stops is_blank blanks rest h stop,
        ← length-append pre blanks,
        ← append_assoc pre blanks rest,
      )
      (drop-length-append (pre ++ blanks) rest)

-- The text of a message around its first "id" key.
abbrev pub keyed : Bytes → Bytes → Bytes → Bytes → Bytes
keyed pre mid blanks rest = pre ++ (id_key ++ (mid ++ b':' ∷ (blanks ++ rest)))

extract_id_found :
    (json : Bytes) (key colon : ℕ)
    → find json id_key ≡ some key
    → find_char_from json b':' key ≡ some colon
    → extract_id json ≡ value_at (drop (skip_blanks json (colon + 1)) json)
unfolding extract_id
extract_id_found json key colon e f = rw (e, extract_id, f) refl

keyed_colon :
    (pre mid blanks rest : Bytes)
    → Lacks b':' mid
    → find_char_from (keyed pre mid blanks rest) b':' (length pre)
      ≡ some (length pre + length (id_key ++ mid))
keyed_colon pre mid blanks rest h =
    find_char_from-Lacks b':' pre (id_key ++ mid) (blanks ++ rest)
      (All-append (λ c. c ≢ b':') id_key mid (omega arith) h)

-- The text up to the colon.
abbrev head : Bytes → Bytes → Bytes
head pre mid = pre ++ (id_key ++ (mid ++ b':' ∷ []))

length-head : (pre mid : Bytes) → length pre + length (id_key ++ mid) + 1 ≡ length (head pre mid)
length-head pre mid =
    omega (arith, length-append pre (id_key ++ (mid ++ b':' ∷ [])), length-append mid (b':' ∷ []))

keyed-head :
    (pre mid blanks rest : Bytes) → head pre mid ++ (blanks ++ rest) ≡ keyed pre mid blanks rest
keyed-head pre mid blanks rest = simp append_assoc

-- extract_id reads the value that follows the first colon behind the first "id" in the text.
pub extract_id-value_at :
    (pre mid blanks rest : Bytes)
    → FirstKey pre
    → Lacks b':' mid
    → All (λ c. is_blank c ≡ true) blanks
    → Stops is_blank rest
    → extract_id (keyed pre mid blanks rest) ≡ value_at rest
extract_id-value_at pre mid blanks rest key colon blank stop =
    extract_id_found (keyed pre mid blanks rest) (length pre) (length pre + length (id_key ++ mid))
      (find-FirstKey pre (mid ++ b':' ∷ (blanks ++ rest)) key)
      (keyed_colon pre mid blanks rest colon)
    ∙ ap value_at (
        rw (length-head pre mid, ← keyed-head pre mid blanks rest)
          (skip_blanks-Stops (head pre mid) blanks rest blank stop))

value_at_numeric :
    (c : ℕ) (s : Bytes)
    → is_numeric c ≡ true
    → value_at (c ∷ s) ≡ take (count_while is_numeric (c ∷ s)) (c ∷ s)
unfolding value_at
value_at_numeric c s h = ground arith

value_at-number :
    (digits rest : Bytes)
    → digits ≢ []
    → All (λ c. is_numeric c ≡ true) digits
    → Stops is_numeric rest
    → value_at (digits ++ rest) ≡ digits
value_at-number [] rest ne h stop = absurd (ne refl)
value_at-number (c ∷ s) rest ne h stop =
    value_at_numeric c (s ++ rest) h.0
    ∙ ap (λ n. take n (c ∷ (s ++ rest))) (count_while-Stops is_numeric (c ∷ s) rest h stop)
    ∙ take-length-append (c ∷ s) rest

value_at-string :
    (text rest : Bytes) → Lacks b'"' text → value_at (b'"' ∷ (text ++ b'"' ∷ rest)) ≡ text
unfolding value_at
value_at-string text rest h =
    rw (find_char-Lacks b'"' text rest h) (take-length-append text (b'"' ∷ rest))

numeric_not_blank : (c : ℕ) → is_numeric c ≡ true → is_blank c ≡ false
numeric_not_blank c h = ground arith

Stops-number :
    (digits rest : Bytes)
    → digits ≢ []
    → All (λ c. is_numeric c ≡ true) digits
    → Stops is_blank (digits ++ rest)
Stops-number [] rest ne h = absurd (ne refl)
Stops-number (c ∷ s) rest ne h = numeric_not_blank c h.0

-- A number behind the first "id" key is the id: all its digits and signs, and nothing more.
pub extract_id-number :
    (pre mid blanks digits rest : Bytes)
    → FirstKey pre
    → Lacks b':' mid
    → All (λ c. is_blank c ≡ true) blanks
    → digits ≢ []
    → All (λ c. is_numeric c ≡ true) digits
    → Stops is_numeric rest
    → extract_id (keyed pre mid blanks (digits ++ rest)) ≡ digits
extract_id-number pre mid blanks digits rest key colon blank ne h stop =
    extract_id-value_at pre mid blanks (digits ++ rest) key colon blank
      (Stops-number digits rest ne h)
    ∙ value_at-number digits rest ne h stop

-- A string behind the first "id" key is the id, without its quotes.
pub extract_id-string :
    (pre mid blanks text rest : Bytes)
    → FirstKey pre
    → Lacks b':' mid
    → All (λ c. is_blank c ≡ true) blanks
    → Lacks b'"' text
    → extract_id (keyed pre mid blanks (b'"' ∷ (text ++ b'"' ∷ rest))) ≡ text
extract_id-string pre mid blanks text rest key colon blank h =
    extract_id-value_at pre mid blanks (b'"' ∷ (text ++ b'"' ∷ rest)) key colon blank refl
    ∙ value_at-string text rest h

-- A part of a text, with what stands before and after it.
abbrev pub Part : Bytes → Bytes → Type 0
Part s t = (before : Bytes) × (after : Bytes) × (before ++ (s ++ after) ≡ t)

Part-nil : (t : Bytes) → Part [] t
Part-nil t = ([], t, refl)

Part-take : (n : ℕ) (t : Bytes) → Part (take n t) t
Part-take n t = ([], drop n t, take-append-drop n t)

Part-drop : (n : ℕ) (s t : Bytes) → Part s (drop n t) → Part s t
Part-drop n s t (before, after, e) = (
  take n t ++ before,
  after,
  append_assoc (take n t) before (s ++ after) ∙ ap (◌++◌ (take n t)) e ∙ take-append-drop n t,
)

Part-cons : (c : ℕ) (s t : Bytes) → Part s t → Part s (c ∷ t)
Part-cons c s t (before, after, e) = (c ∷ before, after, ap (◌∷◌ c) e)

Part-if : (b : Bool) (s s' t : Bytes) → Part s t → Part s' t → Part (if b then s else s') t
Part-if true s s' t h h' = h
Part-if false s s' t h h' = h'

Part-up_to : (s : Bytes) (o : Option ℕ) → Part (elim o [ none ↦ [] | some end ↦ take end s ]) s
Part-up_to s none = Part-nil s
Part-up_to s (some end) = Part-take end s

value_at-Part : (t : Bytes) → Part (value_at t) t
unfolding value_at
value_at-Part [] = Part-nil []
value_at-Part (c ∷ s) =
    Part-if (c == b'"') _ _ (c ∷ s) (Part-cons c _ s (Part-up_to s (find_char s b'"'))) (
      Part-if (is_numeric c) _ _ (c ∷ s) (Part-take (count_while is_numeric (c ∷ s)) (c ∷ s))
        (Part-nil (c ∷ s)))

-- The id is a part of the message, whatever the message is: nothing is read outside it.
pub extract_id-Part : (json : Bytes) → Part (extract_id json) json
unfolding extract_id
extract_id-Part json = elim (Option-cases (find json id_key)) [
  | inl e ↦ rw (e, extract_id) (Part-nil json)
  | inr (key, e) ↦ (elim (Option-cases (find_char_from json b':' key)) [
    | inl f ↦ rw (e, extract_id, f) (Part-nil json)
    | inr (colon, f) ↦
        rw (extract_id_found json key colon e f)
          (Part-drop (skip_blanks json (colon + 1)) _ json (value_at-Part _))
  ])
]
