-- ===== src/Examples/Runner.antt =====
-- main of examples/runner.cpp, behind the parsing of its arguments.
pub mod Arguments
pub mod Ends
use stdiobus_cpp.Prelude.{
  ℕ, Bool, true, false, Option, none, some, List, [], ◌∷◌, ◌++◌, Bytes, codes, ltb, if◌then◌else◌,
}
use stdiobus_cpp.Prelude.Int.{ℤ, pos}
use stdiobus_cpp.ErrorCode.{value}
use stdiobus_cpp.Error.{Error, is_error, message}
use stdiobus_cpp.Embed.Kernel.{Kernel}
use stdiobus_cpp.Types.{Options, Stats, MessageCallback, ErrorCallback, NumberedCallback}
use stdiobus_cpp.Bus.Machine.{Bus, M, ◌>>=◌, ◌>>◌, pure}
use stdiobus_cpp.Bus.Builder
use stdiobus_cpp.Bus.Calls.{start, step, stop, stats, worker_count, is_running, is_valid}
use stdiobus_cpp.Bus.Scope.{scoped}
use stdiobus_cpp.Async.Id.Decimal.{to_string}
use stdiobus_cpp.Examples.Console.{Console, Line, out, err, add_line, print, print_all, int_text}
use stdiobus_cpp.Examples.Runner.Arguments.{
  Settings, Parsed, help, overflow, parsed, no_settings, parse,
}

-- print_usage
abbrev pub usage_lines : Bytes → List Line
usage_lines prog =
    err (codes "Usage: " ++ (prog ++ codes " --config <path.json> [--tcp <port>] [--unix <path>]"))
    ∷ err []
    ∷ err (codes "Options:")
    ∷ err (codes "  --config <path>   Path to JSON config file (required)")
    ∷ err (codes "  --tcp <port>      Listen on TCP port (e.g., 8080)")
    ∷ err (codes "  --unix <path>     Listen on Unix socket (e.g., /tmp/bus.sock)")
    ∷ err []
    ∷ err (codes "Without --tcp or --unix, runs in embedded stdio mode.")
    ∷ []

abbrev pub tell_message : MessageCallback Console
tell_message = some (λ msg. add_line (out (codes "[MSG] " ++ msg)))

unfoldable pub tell_error : ErrorCallback Console
unfolding value int_text
tell_error =
    some
      (λ code msg. add_line (err (codes "[ERR " ++ (int_text (value code) ++ (codes "] " ++ msg)))))

unfoldable pub tell_worker : NumberedCallback Console
unfolding int_text
tell_worker = some (λ worker_id event.
    add_line (out (codes "[WORKER " ++ (int_text worker_id ++ (codes "] " ++ event)))))

-- auto builder = BusBuilder()...
unfoldable pub builder : Bytes → Options Console
unfolding Builder.new Builder.config_path Builder.on_message Builder.on_error Builder.on_worker
    tell_error tell_worker
builder path = Builder.on_worker tell_worker (
    Builder.on_error tell_error
      (Builder.on_message tell_message (Builder.config_path path (Builder.new Console))))

abbrev pub listen_line : Settings → Line
listen_line a =
    if ltb 0 a.tcp_port
    then out (codes "Listening on TCP port " ++ to_string a.tcp_port)
    else (elim (a.unix_path) [
      | some path ↦ out (codes "Listening on Unix socket: " ++ path)
      | none ↦ out (codes "Running in embedded stdio mode")
    ])

-- "Configure listener mode"
unfoldable pub listening : Settings → Options Console → Options Console
unfolding Builder.listen_tcp Builder.listen_unix
listening a options =
    if ltb 0 a.tcp_port
    then Builder.listen_tcp (codes "0.0.0.0") a.tcp_port options
    else (elim (a.unix_path) [ some path ↦ Builder.listen_unix path options | none ↦ options ])

abbrev pub running_lines : ℤ → List Line
running_lines workers =
    out (codes "stdio_bus RUNNING with " ++ (int_text workers ++ codes " workers"))
    ∷ out (codes "Press Ctrl+C to stop")
    ∷ out (codes "---")
    ∷ []

abbrev pub traffic : Stats → Line
traffic s =
    out (
      codes "Stats: in="
      ++ (to_string s.messages_in ++ (codes " out=" ++ to_string s.messages_out)))

module _ (K : Kernel) where
  -- What the handler prints; that it resets g_running is the end of the main loop.
  unfoldable pub signal_handler : M K Console (Unit {0})
  unfolding print
  signal_handler = print (out (codes "\nShutdown requested..."))

  -- The main loop. For each of its rounds: whether a signal has come in by then, so that the handler
  -- runs. The result is whether the loop has ended.
  unfoldable pub main_loop : Bus → List Bool → M K Console Bool
  unfolding is_running step signal_handler
  main_loop bus [] = pure false
  main_loop bus (signal ∷ signals) =
      let again = main_loop bus signals in
      if signal
      then (do signal_handler; pure true)
      else (is_running K bus >>= λ running.
          if running then (do events ← step K bus (pos 100); again) else pure true)

  unfoldable pub print_stop_error : Error → M K Console (Unit {0})
  unfolding print is_error message
  print_stop_error error =
      if is_error error then print (err (codes "Stop error: " ++ message error)) else pure tt

  -- "Graceful shutdown"
  unfoldable pub shutdown : Bus → M K Console (Option ℕ)
  unfolding print stop print_stop_error stats
  shutdown bus = do
    print (out (codes "Stopping..."))
    error ← stop K bus (pos 5)
    print_stop_error error
    s ← stats K bus
    print (traffic s)
    print (out (codes "Stopped."))
    pure (some 0)

  -- From "RUNNING" on.
  unfoldable pub serve : Bus → List Bool → M K Console (Option ℕ)
  unfolding worker_count print_all main_loop shutdown int_text
  serve bus signals = do
    workers ← worker_count K bus
    print_all (running_lines workers)
    ended ← main_loop bus signals
    if ended then shutdown bus else pure none

  -- The block of `bus`.
  unfoldable pub body : List Bool → Bus → M K Console (Option ℕ)
  unfolding is_valid print start is_error message serve
  body signals bus =
      if is_valid bus
      then (do
        error ← start K bus
        if is_error error
            then (do print (err (codes "Failed to start: " ++ message error)); pure (some 1))
            else serve bus signals)
      else (do print (err (codes "Failed to create bus")); pure (some 1))

  -- Behind the parsing.
  unfoldable pub with_settings : Bytes → Settings → List Bool → M K Console (Option ℕ)
  unfolding print_all print scoped Builder.build builder listening body
  with_settings prog a signals = elim (a.config_path) [
    | none ↦ (do print_all (usage_lines prog); pure (some 1))
    | some path ↦ (do
      print (out (codes "Creating stdio_bus with config: " ++ path))
      print (listen_line a)
      scoped K (Builder.build K (listening a (builder path))) (body signals))
  ]

  unfoldable pub main : Bytes → List Bytes → List Bool → M K Console (Option ℕ)
  unfolding parse print_all with_settings
  main prog argv signals = elim (parse argv no_settings) [
    | help ↦ (do print_all (usage_lines prog); pure (some 0))
    | overflow ↦ λ s. none
    | parsed a ↦ with_settings prog a signals
  ]
