-- ===== src/Prelude/Text.antt =====
-- std::string and std::string_view as lists of bytes, with the searches that the program uses.
use Prim.Native.Nat.{ℕ, suc, ◌+◌}
use Prim.Native.Char.{code}
use Prim.Native.String.{String}
use mathlib.Core.Bool.{Bool, true, false, ◌&&◌}
use mathlib.Core.List.{List, [], ◌∷◌, ◌++◌}
use mathlib.Core.Option
use mathlib.Core.Option.{Option, none, some}
use stdiobus_cpp.Prelude.Lists.{take, drop}
use stdiobus_cpp.Prelude.Tests.{◌==◌, if◌then◌else◌}

abbrev pub Bytes : Type 0
Bytes = List ℕ

-- The bytes of an ASCII literal.
abbrev pub codes : String → Bytes
codes String.[] = []
codes (String.◌∷◌ c s) = code c ∷ codes s

-- operator== of two strings.
unfoldable pub bytes_eq : Bytes → Bytes → Bool
bytes_eq [] [] = true
bytes_eq [] (d ∷ t) = false
bytes_eq (c ∷ s) [] = false
bytes_eq (c ∷ s) (d ∷ t) = (c == d) && bytes_eq s t

unfoldable pub is_empty : Bytes → Bool
is_empty [] = true
is_empty (c ∷ s) = false

-- s starts with p.
unfoldable pub starts_with : Bytes → Bytes → Bool
starts_with s [] = true
starts_with [] (d ∷ p) = false
starts_with (c ∷ s) (d ∷ p) = (c == d) && starts_with s p

-- s.find(p): the first position at which p stands; npos is `none`.
unfoldable pub find : Bytes → Bytes → Option ℕ
unfolding starts_with
find [] p = if starts_with [] p then some 0 else none
find (c ∷ s) p =
    let rest = Option.map suc (find s p) in if starts_with (c ∷ s) p then some 0 else rest

-- s.find(b)
unfoldable pub find_char : Bytes → ℕ → Option ℕ
find_char [] b = none
find_char (c ∷ s) b = let rest = Option.map suc (find_char s b) in if c == b then some 0 else rest

-- s.find(b, pos)
unfoldable pub find_char_from : Bytes → ℕ → ℕ → Option ℕ
unfolding find_char
find_char_from s b pos = Option.map (λ n. pos + n) (find_char (drop pos s) b)

-- `while (pos < s.size() && test(s[pos])) pos++;` on the text from pos: the number of rounds.
unfoldable pub count_while : (ℕ → Bool) → Bytes → ℕ
count_while test [] = 0
count_while test (c ∷ s) = let rest = suc (count_while test s) in if test c then rest else 0

-- s.insert(pos, t)
unfoldable pub insert_at : Bytes → ℕ → Bytes → Bytes
insert_at s pos t = take pos s ++ (t ++ drop pos s)
