-- ===== src/Examples/Basic.antt =====
-- examples/basic.cpp
pub mod Ends
use stdiobus_cpp.Prelude.{
  ℕ, Bool, true, false, Option, none, some, List, [], ◌∷◌, ◌++◌, Bytes, codes, if◌then◌else◌,
}
use stdiobus_cpp.Prelude.Int.{ℤ, pos, neg, ltb_ℤ, ◌+ℤ◌}
use stdiobus_cpp.ErrorCode.{value}
use stdiobus_cpp.Error.{Error, is_error, message}
use stdiobus_cpp.Embed.Kernel.{Kernel}
use stdiobus_cpp.Types.{Stats, MessageCallback, ErrorCallback, NumberedCallback}
use stdiobus_cpp.Bus.Machine.{Bus, M, ◌>>=◌, ◌>>◌, pure}
use stdiobus_cpp.Bus.Lifetime.{construct_from_path}
use stdiobus_cpp.Bus.Calls.{
  start, step, stop, send, stats, worker_count, is_running, is_valid, on_message, on_error,
  on_worker,
}
use stdiobus_cpp.Bus.Scope.{scoped}
use stdiobus_cpp.Async.Id.Decimal.{to_string}
use stdiobus_cpp.Examples.Console.{Console, Line, out, err, add_line, print, print_all, int_text}

-- argc > 1 ? argv[1] : "config.json"
abbrev pub path_argument : List Bytes → Bytes
path_argument (program ∷ path ∷ rest) = path
path_argument argv = codes "config.json"

abbrev pub print_message : MessageCallback Console
print_message = some (λ msg. add_line (out (codes "Received: " ++ msg)))

unfoldable pub print_error : ErrorCallback Console
unfolding value int_text
print_error = some (λ code msg.
    add_line (err (codes "Error [" ++ (int_text (value code) ++ (codes "]: " ++ msg)))))

unfoldable pub print_worker : NumberedCallback Console
unfolding int_text
print_worker = some (λ worker_id event.
    add_line (out (codes "Worker " ++ (int_text worker_id ++ (codes ": " ++ event)))))

abbrev pub request : Bytes
request =
    codes "{\"jsonrpc\":\"2.0\",\"method\":\"echo\",\"params\":{\"message\":\"hello\"},\"id\":1}"

-- std::chrono::seconds(5), in the clock's nanoseconds.
abbrev pub five_seconds : ℤ
five_seconds = pos 5000000000

abbrev pub stats_lines : Stats → List Line
stats_lines s =
    out (codes "\nStats:")
    ∷ out (codes "  Messages in:  " ++ to_string s.messages_in)
    ∷ out (codes "  Messages out: " ++ to_string s.messages_out)
    ∷ out (codes "  Bytes in:     " ++ to_string s.bytes_in)
    ∷ out (codes "  Bytes out:    " ++ to_string s.bytes_out)
    ∷ []

abbrev pub workers_line : ℤ → Line
workers_line workers = out (codes "Bus started with " ++ (int_text workers ++ codes " workers"))

module _ (K : Kernel) where
  -- `while (bus.is_running()) { ... }`: a reading of the clock for each round.
  unfoldable pub event_loop : Bus → ℤ → List ℤ → M K Console Bool
  unfolding is_running step
  event_loop bus begin [] = pure false
  event_loop bus begin (now ∷ clock) =
      let again = event_loop bus begin clock in
      is_running K bus >>= λ running.
      if running
      then (do
        events ← step K bus (pos 100)
        if ltb_ℤ (begin +ℤ five_seconds) now then pure true else again)
      else pure true

  unfoldable pub print_failure : Bytes → Error → M K Console (Unit {0})
  unfolding print is_error message
  print_failure text error = if is_error error then print (err (text ++ message error)) else pure tt

  -- Behind the loop.
  unfoldable pub finish : Bus → M K Console (Option ℕ)
  unfolding stats print_all stop print_failure print
  finish bus = do
    s ← stats K bus
    print_all (stats_lines s)
    error ← stop K bus (pos 5)
    print_failure (codes "Failed to stop: ") error
    print (out (codes "Bus stopped"))
    pure (some 0)

  -- From "Bus started" on.
  unfoldable pub run : Bus → ℤ → List ℤ → M K Console (Option ℕ)
  unfolding worker_count print send print_failure event_loop finish
  run bus begin clock = do
    workers ← worker_count K bus
    print (workers_line workers)
    error ← send K bus request
    print_failure (codes "Failed to send: ") error
    ended ← event_loop bus begin clock
    if ended then finish bus else pure none

  -- The block of `bus`.
  unfoldable pub body : Bytes → ℤ → List ℤ → Bus → M K Console (Option ℕ)
  unfolding is_valid print on_message on_error on_worker start is_error message run print_error
      print_worker
  body path begin clock bus =
      if is_valid bus
      then (do
        on_message K bus print_message
        on_error K bus print_error
        on_worker K bus print_worker
        error ← start K bus
        if is_error error
            then (do print (err (codes "Failed to start: " ++ message error)); pure (some 1))
            else run bus begin clock)
      else (do print (err (codes "Failed to create bus from " ++ path)); pure (some 1))

  unfoldable pub main : List Bytes → ℤ → List ℤ → M K Console (Option ℕ)
  unfolding scoped construct_from_path body
  main argv begin clock =
      scoped K (construct_from_path K (path_argument argv)) (body (path_argument argv) begin clock)
