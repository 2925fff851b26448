-- ===== src/Examples/Console.antt =====
-- std::cout and std::cerr: the lines that the examples print, in order, and the text of an int.
use stdiobus_cpp.Prelude.{ℕ, ◌≡◌, refl, ◌+◌, List, [], ◌∷◌, ◌++◌, Bool, Bytes, some}
use stdiobus_cpp.Prelude.Int.{ℤ, pos, negsuc}
use stdiobus_cpp.Embed.Kernel.{Kernel, Contract}
use stdiobus_cpp.Bus.Machine.{Machine, M, ◌>>◌, pure}
use stdiobus_cpp.Bus.Safe.{Safe, Safe-user, Safe-pure, Safe-then}
use stdiobus_cpp.Async.Id.Decimal.{to_string}

pub data Line : Type 0 where
  out : Bytes → Line
  err : Bytes → Line

pub record Console : Type 0 where
  pub lines : List Line
  -- A callback has read past the end of an array, which is undefined.
  pub stray : Bool

abbrev pub add_line : Line → Console → Console
add_line line console = record console { lines = console.lines ++ (line ∷ []) }

-- operator<< of an int
unfoldable pub int_text : ℤ → Bytes
unfolding to_string
int_text (pos n) = to_string n
int_text (negsuc n) = b'-' ∷ to_string (n + 1)

module _ {K : Kernel} where
  unfoldable pub print : Line → M K Console (Unit {0})
  print line s = some (tt, record s { user = add_line line s.user })

  pub Safe-print : (L : Contract K) (a : ℕ) (line : Line) → Safe L a (print line)
  unfolding print
  Safe-print L a line = Safe-user L a (add_line line)

  -- One line after the other.
  unfoldable pub print_all : List Line → M K Console (Unit {0})
  unfolding print
  print_all [] = pure tt
  print_all (line ∷ lines) = do print line; print_all lines

  pub Safe-print_all : (L : Contract K) (a : ℕ) (lines : List Line) → Safe L a (print_all lines)
  unfolding print_all
  Safe-print_all L a [] = Safe-pure L a tt
  Safe-print_all L a (line ∷ lines) = Safe-then L a (Safe-print L a line) (Safe-print_all L a lines)

  -- Printing changes the console alone.
  pub print_all-console :
      (lines : List Line) (s : Machine K Console)
      → (c : Console) × (print_all lines s ≡ some (tt, record s { user = c }))
  unfolding print_all
  print_all-console [] s = (s.user, refl)
  print_all-console (line ∷ lines) s =
      print_all-console lines (record s { user = add_line line s.user })
