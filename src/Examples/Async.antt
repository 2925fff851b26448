-- ===== src/Examples/Async.antt =====
-- examples/async.cpp
pub mod Sent
pub mod Ends
use stdiobus_cpp.Prelude.{
  ℕ, zero, suc, Bool, true, false, Option, none, some, List, [], ◌∷◌, ◌++◌, Bytes, codes, length,
  ltb, if◌then◌else◌,
}
use stdiobus_cpp.Prelude.Int.{ℤ, pos}
use stdiobus_cpp.Error.{is_error, message}
use stdiobus_cpp.Embed.Kernel.{Kernel}
use stdiobus_cpp.Bus.Machine.{Bus, M, ◌>>=◌, ◌>>◌, pure}
use stdiobus_cpp.Bus.Calls.{is_valid}
use stdiobus_cpp.Async.Id.Decimal.{to_string}
use stdiobus_cpp.Async.Pending.{AsyncResult, Shared, waiting, ready, broken, is_ok}
use stdiobus_cpp.Async.Client.{
  Client, on_app, construct_from_path, start, stop, pump, request_async, check_timeouts, destruct,
  read_requests,
}
use stdiobus_cpp.Examples.Console.{Console, Line, out, err, add_line}
use stdiobus_cpp.Examples.Basic.{path_argument}

-- The text of request i.
unfoldable pub request_text : ℕ → Bytes
unfolding to_string
request_text i =
    codes "{\"jsonrpc\":\"2.0\",\"method\":\"echo\",\"params\":{\"n\":"
    ++ (to_string i ++ (codes "},\"id\":" ++ (to_string i ++ codes "}")))

-- std::chrono::seconds(10), in the clock's nanoseconds.
abbrev pub ten_seconds : ℤ
ten_seconds = pos 10000000000

-- How many futures are not waiting.
unfoldable pub count_ready : (ℕ → Shared) → List ℕ → ℕ
count_ready promises [] = 0
count_ready promises (f ∷ futures) =
    let others = count_ready promises futures in
    elim (promises f) [ waiting ↦ others | ready r ↦ suc others | broken ↦ suc others ]

unfoldable pub result_line : ℕ → AsyncResult → Line
unfolding to_string is_ok message
result_line i result =
    if is_ok result
    then out (codes "  Request " ++ (to_string i ++ (codes ": " ++ result.response)))
    else out (codes "  Request " ++ (to_string i ++ (codes " failed: " ++ message result.error)))

module _ (K : Kernel) where
  unfoldable pub print_line : Line → M K (Client Console) (Unit {0})
  print_line line s = some (tt, record s { user = on_app (add_line line) s.user })

  -- The requests from number i on, at the reading `time i` of the clock each.
  unfoldable pub send_requests : Bus → (ℕ → ℤ) → ℕ → ℕ → M K (Client Console) (List ℕ)
  unfolding request_async request_text
  send_requests bus time i zero = pure []
  send_requests bus time i (suc left) = do
    future ← request_async K bus (request_text i) (time i) ten_seconds
    futures ← send_requests bus time (suc i) left
    pure (future ∷ futures)

  -- "Pump until all futures are ready": a reading of the clock for each round.
  unfoldable pub pump_until_ready : Bus → List ℕ → List ℤ → M K (Client Console) Bool
  unfolding pump check_timeouts read_requests count_ready
  pump_until_ready bus futures [] = pure false
  pump_until_ready bus futures (now ∷ clock) =
      let again = pump_until_ready bus futures clock in
      (do
        events ← pump K bus (pos 10)
        check_timeouts K now
        requests ← read_requests K
        if ltb (count_ready requests.promises futures) 5 then again else pure true)

  -- futures[i].get(): a future that waits blocks for ever, and a broken one throws.
  unfoldable pub get : ℕ → M K (Client Console) AsyncResult
  unfolding read_requests
  get future = do
    requests ← read_requests K
    elim (requests.promises future) [
      | waiting ↦ λ s. none
      | ready result ↦ pure result
      | broken ↦ λ s. none
    ]

  unfoldable pub print_results : ℕ → List ℕ → M K (Client Console) (Unit {0})
  unfolding get print_line result_line
  print_results i [] = pure tt
  print_results i (future ∷ futures) = do
    result ← get future
    print_line (result_line i result)
    print_results (suc i) futures

  -- "Get results" and "Stop".
  unfoldable pub finish : Bus → List ℕ → M K (Client Console) (Option ℕ)
  unfolding print_line print_results stop
  finish bus futures = do
    print_line (out (codes "\nResults:"))
    print_results 1 futures
    stopped ← stop K bus (pos 5)
    print_line (out (codes "\nDone"))
    pure (some 0)

  -- Behind start.
  unfoldable pub run : Bus → (ℕ → ℤ) → List ℤ → M K (Client Console) (Option ℕ)
  unfolding print_line send_requests pump_until_ready finish
  run bus time clock = do
    print_line (out (codes "Sending 5 async requests..."))
    futures ← send_requests bus time 1 5
    ended ← pump_until_ready bus futures clock
    if ended then finish bus futures else pure none

  -- The block of `bus`.
  unfoldable pub body : (ℕ → ℤ) → List ℤ → Bus → M K (Client Console) (Option ℕ)
  unfolding is_valid print_line start is_error message run
  body time clock bus =
      if is_valid bus
      then (do
        error ← start K bus
        if is_error error
            then (do print_line (err (codes "Failed to start: " ++ message error)); pure (some 1))
            else run bus time clock)
      else (do print_line (err (codes "Failed to create bus")); pure (some 1))

  -- ~AsyncBus at the end of the block. That its message handler uses the destroyed members is
  -- undefined.
  unfoldable pub end_scope : Bus → M K (Client Console) (Unit {0})
  unfolding destruct
  end_scope bus s = elim (destruct K bus (record s { user = record (s.user) { stray = false } })) [
    | none ↦ none
    | some (x, t) ↦ if t.user.stray then none else some (x, t)
  ]

  unfoldable pub main : List Bytes → (ℕ → ℤ) → List ℤ → M K (Client Console) (Option ℕ)
  unfolding construct_from_path body end_scope
  main argv time clock = do
    bus ← construct_from_path K (path_argument argv)
    result ← body time clock bus
    elim result [ none ↦ pure none | some code ↦ (do end_scope bus; pure (some code)) ]
