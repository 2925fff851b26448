-- ===== src/Examples/Basic/Ends.antt =====
-- basic.cpp from its start to its end.
use stdiobus_cpp.Prelude.{
  ℕ, ◌≡◌, refl, subst, Bool, true, false, Option, none, some, List, [], ◌∷◌, ◌++◌, ◌||◌, codes,
  Bytes,
}
use stdiobus_cpp.Prelude.Int.{ℤ, pos, ltb_ℤ, ◌+ℤ◌}
use stdiobus_cpp.Error.{Error, is_error, message}
use stdiobus_cpp.Embed.Kernel.{Kernel, Contract}
use stdiobus_cpp.Bus.Machine.{Machine}
use stdiobus_cpp.Bus.Calls.{is_valid}
use stdiobus_cpp.Bus.Safe.{
  Safe-is_running, Safe-stats, Safe-worker_count, Safe-on_message, Safe-on_error, Safe-on_worker,
  Safe, Safe-start, Safe-stop, Safe-step, Safe-send, safe,
}
use stdiobus_cpp.Bus.Returns.{
  Returns, Returns-pure, Returns-bind, Returns-then, Returns-after, Returns-if, Returns-weaken,
}
use stdiobus_cpp.Bus.Scope.{scoped_path}
use stdiobus_cpp.Examples.Console.{Console, out, err, Safe-print, Safe-print_all}
use stdiobus_cpp.Examples.Basic.{
  path_argument, event_loop, print_failure, print_message, print_error, print_worker, request,
  workers_line, stats_lines, finish, run, body, main, five_seconds,
}

-- Some reading of the clock is past the five seconds.
unfoldable pub is_late : ℤ → List ℤ → Bool
is_late begin [] = false
is_late begin (now ∷ clock) = ltb_ℤ (begin +ℤ five_seconds) now || is_late begin clock

late_rest : (now rest : Bool) → now ≡ false → now || rest ≡ true → rest ≡ true
late_rest true rest e x = cc (e)
late_rest false rest e x = x

abbrev pub Ends : Bool → Option ℕ → Type 0
Ends late result = late ≡ true → (code : ℕ) × (result ≡ some code)

module _ {K : Kernel} (L : Contract K) (a : ℕ) where
  Safe-print_failure : (text : Bytes) (error : Error) → Safe L a (print_failure K text error)
  unfolding print_failure
  Safe-print_failure text error = search (safe, Safe-print L a) depth 20

  event_loop-ends :
      (begin : ℤ) (clock : List ℤ)
      → Returns L a
          (λ ended. is_late begin clock ≡ true → ended ≡ true)
          (event_loop K (some a) begin clock)
  unfolding event_loop is_late
  event_loop-ends begin [] = Returns-pure L a false (λ late. late)
  event_loop-ends begin (now ∷ clock) = Returns-bind L a (Safe-is_running L a) (λ running.
      Returns-if L a running
        (λ _. Returns-bind L a (Safe-step L a (pos 100)) (λ events.
          Returns-if L a (ltb_ℤ (begin +ℤ five_seconds) now)
            (λ _. Returns-pure L a true (λ _. refl))
            (λ early.
              Returns-weaken L a (λ ended f late. f (late_rest _ _ early late))
                (event_loop-ends begin clock))))
        (λ _. Returns-pure L a true (λ _. refl)))

  finish-Returns : Returns L a (λ code. code ≡ some 0) (finish K (some a))
  unfolding finish
  finish-Returns = Returns-bind L a (Safe-stats L a) (λ s.
      Returns-then L a (Safe-print_all L a (stats_lines s)) (
        Returns-bind L a (Safe-stop L a (pos 5)) (λ error.
          Returns-then L a (Safe-print_failure (codes "Failed to stop: ") error) (
            Returns-then L a (Safe-print L a (out (codes "Bus stopped")))
              (Returns-pure L a (some 0) refl)))))

  -- Once the clock is late enough there is an exit code.
  run-Returns :
      (begin : ℤ) (clock : List ℤ)
      → Returns L a (Ends (is_late begin clock)) (run K (some a) begin clock)
  unfolding run
  run-Returns begin clock = Returns-bind L a (Safe-worker_count L a) (λ workers.
      Returns-then L a (Safe-print L a (workers_line workers)) (
        Returns-bind L a (Safe-send L a request) (λ error.
          Returns-then L a (Safe-print_failure (codes "Failed to send: ") error) (
            Returns-after L a (event_loop-ends begin clock) (λ ended e.
              Returns-if L a ended (λ _. Returns-weaken L a (λ code f _. (0, f)) finish-Returns)
                (λ f. Returns-pure L a none (λ late. cc (f, e late))))))))

  body-Returns :
      (path : Bytes) (begin : ℤ) (clock : List ℤ)
      → Returns L a (Ends (is_late begin clock)) (body K path begin clock (some a))
  unfolding body is_valid
  body-Returns path begin clock = Returns-then L a (Safe-on_message L a print_message) (
      Returns-then L a (Safe-on_error L a print_error) (
        Returns-then L a (Safe-on_worker L a print_worker) (
          Returns-bind L a (Safe-start L a) (λ error.
            Returns-if L a (is_error error)
              (λ _.
                Returns-then L a (Safe-print L a (err (codes "Failed to start: " ++ message error)))
                  (Returns-pure L a (some 1) (λ _. (1, refl))))
              (λ _. run-Returns begin clock)))))

main-returns :
    (K : Kernel) (L : Contract K) (argv : List Bytes) (begin : ℤ) (clock : List ℤ)
    (s : Machine K Console)
    → (r : Option ℕ) × (t : Machine K Console) × (main K argv begin clock s ≡ some (r, t))
      × Ends (is_late begin clock) r
      × ((code : ℕ) → r ≡ some code → (j : ℕ) → L.context t.world j ≡ L.context s.world j)
unfolding main
main-returns K L argv begin clock s =
    scoped_path L (Ends (is_late begin clock)) (path_argument argv)
      (body K (path_argument argv) begin clock) s
      (λ a. body-Returns L a (path_argument argv) begin clock)

-- basic.cpp on any kernel, when some reading of the clock is past the five seconds: it runs without
-- an undefined step and ends with an exit code, and then the kernel has the instances that it had
-- before.
pub basic_main-ends :
    (K : Kernel) (L : Contract K) (argv : List Bytes) (begin : ℤ) (clock : List ℤ)
    (s : Machine K Console)
    → is_late begin clock ≡ true
    → (code : ℕ) × (t : Machine K Console) × (main K argv begin clock s ≡ some (some code, t))
      × ((j : ℕ) → L.context t.world j ≡ L.context s.world j)
basic_main-ends K L argv begin clock s late =
    let (r, t, e, ends, same) = main-returns K L argv begin clock s in
    let (code, f) = ends late in
    (code, t, subst (λ x. main K argv begin clock s ≡ some (x, t)) f e, same code f)
