-- ===== src/Async/Id/Search.antt =====
-- Where the searches of extract_id stop.
use mathlib.Core.Option
use stdiobus_cpp.Prelude.{
  ℕ, suc, ◌≡◌, ◌≢◌, refl, ap, ◌∙◌, Bool, true, false, Option, none, some, [], ◌∷◌, ◌++◌, ◌≤◌, ◌&&◌,
  length-append, append_assoc, Bytes, codes, length, All, arith, ◌==◌, starts_with, find, find_char,
  count_while,
}
use stdiobus_cpp.Async.Id.{id_key}

abbrev pub Lacks : ℕ → Bytes → Type 0
Lacks b = All (λ c. c ≢ b)

-- A key that follows `pre` at once is the first one in the text.
abbrev pub FirstKey : Bytes → Type 0
FirstKey pre = find (pre ++ codes "\"id") id_key ≡ none

-- The text is at its end or goes on with a byte that fails the test.
abbrev pub Stops : (ℕ → Bool) → Bytes → Type 0
Stops test [] = Unit {0}
Stops test (c ∷ s) = test c ≡ false

starts_with-append :
    (s t p : Bytes) → length p ≤ length s → starts_with (s ++ t) p ≡ starts_with s p
unfolding starts_with
starts_with-append [] t [] h = refl
starts_with-append [] t (d ∷ p) h = absurd (omega arith)
starts_with-append (c ∷ s) t [] h = refl
starts_with-append (c ∷ s) t (d ∷ p) h =
    ap (λ b. (c == d) && b) (starts_with-append s t p (omega arith))

-- A byte that the pattern lacks ends the comparison.
starts_with-Lacks :
    (b : ℕ) (s t p : Bytes) → Lacks b p → starts_with (s ++ b ∷ t) p ≡ starts_with s p
unfolding starts_with
starts_with-Lacks b [] t [] h = refl
starts_with-Lacks b [] t (d ∷ p) h = ground arith
starts_with-Lacks b (c ∷ s) t [] h = refl
starts_with-Lacks b (c ∷ s) t (d ∷ p) h = ap (λ e. (c == d) && e) (starts_with-Lacks b s t p h.1)

find_none_cons :
    (c : ℕ) (s p : Bytes)
    → find (c ∷ s) p ≡ none
    → (starts_with (c ∷ s) p ≡ false) × (find s p ≡ none)
unfolding find
find_none_cons c s p h = ground arith

find_skip :
    (c : ℕ) (s p : Bytes) (o : Option ℕ)
    → starts_with (c ∷ s) p ≡ false
    → find s p ≡ o
    → find (c ∷ s) p ≡ Option.map suc o
unfolding find
find_skip c s p o h e = rw h (ap (Option.map suc) e)

key_start :
    (a : ℕ) (pre rest : Bytes)
    → starts_with (a ∷ pre ++ codes "\"id") id_key ≡ false
    → starts_with (a ∷ (pre ++ (id_key ++ rest))) id_key ≡ false
key_start a pre rest h = rw (← append_assoc pre (codes "\"id") (b'"' ∷ rest)) (
    starts_with-append (a ∷ pre ++ codes "\"id") (b'"' ∷ rest) id_key
      (omega (arith, length-append pre (codes "\"id")))
    ∙ h)

pub find-FirstKey :
    (pre rest : Bytes) → FirstKey pre → find (pre ++ (id_key ++ rest)) id_key ≡ some (length pre)
find-FirstKey [] rest h = unfold find in refl
find-FirstKey (a ∷ pre) rest h =
    let (first, later) = find_none_cons a (pre ++ codes "\"id") id_key h in
    find_skip a (pre ++ (id_key ++ rest)) id_key (some (length pre)) (key_start a pre rest first)
      (find-FirstKey pre rest later)

pub find_char-Lacks :
    (b : ℕ) (pre rest : Bytes) → Lacks b pre → find_char (pre ++ b ∷ rest) b ≡ some (length pre)
unfolding find_char
find_char-Lacks b [] rest h = ground arith
find_char-Lacks b (c ∷ pre) rest h = ground (arith, find_char-Lacks b pre rest h.1)

pub count_while-Stops :
    (test : ℕ → Bool) (s rest : Bytes)
    → All (λ c. test c ≡ true) s
    → Stops test rest
    → count_while test (s ++ rest) ≡ length s
unfolding count_while
count_while-Stops test [] [] h stop = refl
count_while-Stops test [] (c ∷ rest) h stop = rw stop
count_while-Stops test (c ∷ s) rest h stop =
    rw h.0 (ap suc (count_while-Stops test s rest h.1 stop))

-- A prefix with no key, and then a brace.
pub FirstKey-brace : (pre : Bytes) → find pre id_key ≡ none → FirstKey (pre ++ b'{' ∷ [])
FirstKey-brace [] h = unfold find in refl
FirstKey-brace (a ∷ pre) h =
    let (first, later) = find_none_cons a pre id_key h in
    find_skip a ((pre ++ b'{' ∷ []) ++ codes "\"id") id_key none
      (rw (append_assoc pre (b'{' ∷ []) (codes "\"id"))
        (starts_with-Lacks b'{' (a ∷ pre) (codes "\"id") id_key (omega arith) ∙ first))
      (FirstKey-brace pre later)
