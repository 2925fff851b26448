-- ===== src/Examples/Builder.antt =====
-- examples/builder.cpp
pub mod Ends
pub mod Failure
use stdiobus_cpp.Prelude.{
  ℕ, zero, suc, Bool, true, false, Option, none, some, List, [], ◌∷◌, ◌++◌, Bytes, codes,
  if◌then◌else◌,
}
use stdiobus_cpp.Prelude.Int.{ℤ, pos, negsuc}
use stdiobus_cpp.ErrorCode.{error_code_name}
use stdiobus_cpp.Error.{is_error, message}
use stdiobus_cpp.Embed.Kernel.{Kernel}
use stdiobus_cpp.Types.{Options, MessageCallback, ErrorCallback, NumberedCallback}
use stdiobus_cpp.Bus.Machine.{Bus, M, ◌>>=◌, ◌>>◌, pure}
use stdiobus_cpp.Bus.Builder
use stdiobus_cpp.Bus.Calls.{start, step, stop, send, is_valid}
use stdiobus_cpp.Bus.Scope.{scoped}
use stdiobus_cpp.Examples.Basic.{path_argument}
use stdiobus_cpp.Examples.Console.{Console, out, err, add_line, print, int_text}

abbrev pub show_message : MessageCallback Console
show_message = some (λ msg. add_line (out (codes "[MSG] " ++ msg)))

abbrev pub show_error : ErrorCallback Console
show_error =
    some
      (λ code msg. add_line (err (codes "[ERR] " ++ (error_code_name code ++ (codes ": " ++ msg)))))

abbrev pub levels : List Bytes
levels = codes "DEBUG" ∷ codes "INFO" ∷ codes "WARN" ∷ codes "ERROR" ∷ []

-- names[index], where there is one.
unfoldable pub entry : List Bytes → ℤ → Option Bytes
entry [] index = none
entry (name ∷ names) (pos zero) = some name
entry (name ∷ names) (pos (suc n)) = entry names (pos n)
entry (name ∷ names) (negsuc n) = none

unfoldable pub show_log : NumberedCallback Console
unfolding entry
show_log = some (λ level msg console. elim (entry levels level) [
  | none ↦ record console { stray = true }
  | some name ↦ add_line (out (codes "[" ++ (name ++ (codes "] " ++ msg)))) console
])

unfoldable pub show_worker : NumberedCallback Console
unfolding int_text
show_worker =
    some (λ id event. add_line (out (codes "[WORKER " ++ (int_text id ++ (codes "] " ++ event)))))

-- The chain of setters.
unfoldable pub configured : Bytes → Options Console
unfolding Builder.new Builder.config_path Builder.log_level Builder.on_message Builder.on_error
    Builder.on_log Builder.on_worker show_log show_worker
configured path = Builder.on_worker show_worker (
    Builder.on_log show_log (
      Builder.on_error show_error (
        Builder.on_message show_message
          (Builder.log_level (pos 1) (Builder.config_path path (Builder.new Console))))))

abbrev pub ping : Bytes
ping = codes "{\"jsonrpc\":\"2.0\",\"method\":\"ping\",\"id\":1}"

module _ (K : Kernel) where
  -- The rounds of the loop that are left.
  unfoldable pub rounds : ℕ → Bus → M K Console (Unit {0})
  unfolding step
  rounds zero bus = pure tt
  rounds (suc n) bus = do events ← step K bus (pos 100); rounds n bus

  -- The block of `bus`.
  unfoldable pub body : Bus → M K Console (Option ℕ)
  unfolding is_valid print start is_error message send rounds stop
  body bus =
      if is_valid bus
      then (do
        error ← start K bus
        if is_error error
            then (do print (err (codes "Start failed: " ++ message error)); pure (some 1))
            else (do
              sent ← send K bus ping
              rounds 20 bus
              stopped ← stop K bus (pos 5)
              pure (some 0)))
      else (do print (err (codes "Failed to create bus")); pure (some 1))

  unfoldable pub main : List Bytes → M K Console (Option ℕ)
  unfolding scoped Builder.build body configured
  main argv = scoped K (Builder.build K (configured (path_argument argv))) body
