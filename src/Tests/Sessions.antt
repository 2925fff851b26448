-- ===== src/Tests/Sessions.antt =====
-- Whole lives of an AsyncBus on the echoing kernel.
use stdiobus_cpp.Prelude.{
  ℕ, ◌≡◌, ◌<◌, refl, none, some, List, [], ◌∷◌, codes, false, ◌||◌, ◌==◌, if◌then◌else◌,
}
use stdiobus_cpp.Prelude.Int.{pos}
use stdiobus_cpp.Async.Pending.{AsyncState, start, broken, register}
use stdiobus_cpp.Async.Pending.Invariant.{IsValid, is_waiting, start-IsValid, register-IsValid}
use stdiobus_cpp.Async.Pending.History
use stdiobus_cpp.Async.Pending.Spec
use stdiobus_cpp.Async.Pending.View.{view}
use stdiobus_cpp.Async.Pending.Refinement.{run-Refines}
use stdiobus_cpp.Async.Client.{Client, destruct}
use stdiobus_cpp.Async.Client.Session.{
  Call, start_call, stop_call, pump_call, notify_call, request_call, timeouts_call, run_calls,
  Session, run_calls-Session,
}
use stdiobus_cpp.Async.Client.Destroyed.{responds, destruct_lem}
use stdiobus_cpp.Async.Client.Session.Trace.{trace}
use stdiobus_cpp.Async.Client.Session.Refinement.{run_calls-Refines}
use stdiobus_cpp.Async.Pending.History.{Event}
use stdiobus_cpp.Bus.Machine.{Machine}
use stdiobus_cpp.Tests.Requests.{two, two-IsValid, events}
use stdiobus_cpp.Tests.Clients.{
  App, options, opened, opened_Owns, message, asked_state, waiting_machine, waiting_Owns,
}
use stdiobus_cpp.Tests.Echo.{echo, echo_contract}

run-Refines_example :
    (s : AsyncState) × (History.run events two ≡ some s)
    × IsValid s
    × (view s ≡ Spec.run events (view two))
run-Refines_example = run-Refines events two two-IsValid

-- Start, two requests, one of them answered, the timeouts, and the end.
abbrev calls : List Call
calls =
    start_call
    ∷ request_call message (pos 100) (pos 30)
    ∷ pump_call (pos 10)
    ∷ request_call (codes "{}") (pos 110) (pos 5)
    ∷ timeouts_call (pos 200)
    ∷ notify_call (codes "{}")
    ∷ stop_call (pos 5)
    ∷ []

opened_Session : Session echo_contract options 0 0 IsValid opened
opened_Session = record { own = opened_Owns; holds = (_, refl, start-IsValid) }

run_calls-Session_example :
    (t : Machine echo (Client App)) × (run_calls echo calls (some 0) opened ≡ some t)
    × Session echo_contract options 0 0 IsValid t
run_calls-Session_example = run_calls-Session echo_contract options 0 0 calls opened opened_Session

destruct_lem_example :
    (t : Machine echo (Client App)) × (destruct echo (some 0) waiting_machine ≡ some (tt, t))
    × ((j : ℕ)
        → echo_contract.context t.world j
          ≡ (if 0 == j then none else echo_contract.context waiting_machine.world j))
    × (t.heap 0 ≡ none)
    × ((p : ℕ)
        → p < 1
        → t.user.left p
          ≡ (if is_waiting (asked_state.promises p) then broken else asked_state.promises p))
    × (t.user.stray ≡ (false || responds echo 0 waiting_machine.world))
unfolding register
destruct_lem_example =
    destruct_lem echo_contract options {s = waiting_machine} {a = 0} {h = 0} {st = asked_state}
      waiting_Owns refl (register-IsValid (codes "7") (pos 130) start-IsValid)

run_calls-Refines_example :
    (t : Machine echo (Client App)) × (st' : AsyncState) × (run_calls echo calls (some 0) opened
      ≡ some t)
    × (t.user.requests ≡ some st')
    × (view st' ≡ Spec.run (trace echo 0 calls opened.world 1) (view start))
run_calls-Refines_example =
    run_calls-Refines echo_contract options {s = opened} {a = 0} {h = 0} {st = start} calls
      opened_Owns refl start-IsValid
