-- ===== src/Tests/Clients.antt =====
-- An AsyncBus on the echoing kernel: a request, and the pump that brings its response.
use stdiobus_cpp.Prelude.{
  ◌≡◌, ◌⊎◌, refl, none, some, [], ◌∷◌, Bytes, codes, inl, true, false, is_empty,
}
use stdiobus_cpp.Prelude.Int.{pos, ◌+ℤ◌}
use stdiobus_cpp.Error.{is_error, from_c}
use stdiobus_cpp.Bus.Calls.{not_initialized}
use stdiobus_cpp.Types.{Options, default_options}
use stdiobus_cpp.Bus.Machine.{Machine, update}
use stdiobus_cpp.Bus.Behaviour.{Owns}
use stdiobus_cpp.Async.Id.{extract_or_inject_id, extract_id}
use stdiobus_cpp.Async.Table.{lookup}
use stdiobus_cpp.Async.Pending
use stdiobus_cpp.Async.Pending.{AsyncState, waiting, ready}
use stdiobus_cpp.Async.Pending.Invariant.{IsValid, start-IsValid}
use stdiobus_cpp.Async.Pending.Spec
use stdiobus_cpp.Async.Pending.View.{view}
use stdiobus_cpp.Async.Client.Events.{exchange}
use stdiobus_cpp.Async.Client.Fate.{HasAnswer}
use stdiobus_cpp.Async.Client.{Client, request_async, pump}
use stdiobus_cpp.Async.Client.Hooked.{hooked}
use stdiobus_cpp.Async.Client.Requests.{request_async_lem}
use stdiobus_cpp.Async.Client.Closed.{request_async-no_instance}
use stdiobus_cpp.Async.Client.Sending.{request}
use stdiobus_cpp.Async.Client.RoundTrip.{request_async-pump}
use stdiobus_cpp.Tests.Echo.{echo, echo_contract, context_at, echoes}

abbrev pub App : Type 0
App = Unit {0}

abbrev pub options : Options App
options = record (default_options App) { config_path = codes "bus.json" }

abbrev empty : Machine echo (Client App)
empty = record {
  world = record { contexts = []; queue = [] };
  heap = λ a. none;
  next = 0;
  user = record { requests = none; left = λ p. waiting; stray = false; app = tt };
}

-- The AsyncBus after its construction.
abbrev pub opened : Machine echo (Client App)
opened = record {
  world = record { contexts = some 0 ∷ []; queue = [] };
  heap = update (λ a. none) 0 (some (record { handle = some 0; options = hooked options }));
  next = 1;
  user = record { requests = some Pending.start; left = λ p. waiting; stray = false; app = tt };
}

pub opened_Owns :
    Owns echo_contract opened 0 0 (record { handle = some 0; options = hooked options })
unfolding context_at echo_contract
opened_Owns = record { stored = refl; handle = refl; context = refl }

-- {"id":7}
abbrev pub message : Bytes
message = codes "{\"id\":7}"

request_async_lem_example :
    let x = extract_or_inject_id message 1 in
    (t : Machine echo (Client App)) × (request_async echo (some 0) message (pos 100) (pos 30) opened
      ≡ some (0, t))
    × (t.world ≡ (echo.ingest 0 x.json opened.world).world)
    × Owns echo_contract t 0 0 (record { handle = some 0; options = hooked options })
    × ((st : AsyncState) × (t.user.requests ≡ some st)
        × IsValid st
        × (view st
            ≡ Spec.run
                (exchange echo 0 opened.world 1 message (pos 100 +ℤ pos 30))
                (view Pending.start))
        × (((st.promises 0 ≡ waiting)
              × (lookup x.id st.pending ≡ some (request (pos 100 +ℤ pos 30) Pending.start)))
            ⊎ HasAnswer x.id (from_c (pos 0)) 0 st)
        × (is_error (from_c (pos 0)) ≡ true → HasAnswer x.id (from_c (pos 0)) 0 st))
request_async_lem_example =
    request_async_lem echo_contract options {s = opened} {a = 0} {h = 0} {st = Pending.start}
      opened_Owns refl start-IsValid message (pos 100) (pos 30)

request_async-no_instance_example :
    (t : Machine echo (Client App)) × (request_async echo none message (pos 100) (pos 30) opened
      ≡ some (0, t))
    × (t.world ≡ opened.world)
    × ((st : AsyncState) × (t.user.requests ≡ some st)
        × IsValid st
        × (st.promises 0 ≡ ready (record { error = not_initialized; response = [] }))
        × (lookup (extract_or_inject_id message 1).id st.pending ≡ none))
request_async-no_instance_example =
    request_async-no_instance none opened Pending.start message (pos 100) (pos 30) tt refl
      start-IsValid

-- The request 7 is pending, and the kernel has its message.
abbrev pub asked_state : AsyncState
asked_state = Pending.register (codes "7") (pos 130) Pending.start

abbrev pub waiting_machine : Machine echo (Client App)
waiting_machine = record opened {
  world = record { contexts = some 0 ∷ []; queue = codes "{\"method\":1}" ∷ message ∷ [] };
  user = record { requests = some asked_state; left = λ p. waiting; stray = false; app = tt };
}

pub waiting_Owns :
    Owns echo_contract waiting_machine 0 0 (record { handle = some 0; options = hooked options })
unfolding context_at echo_contract
waiting_Owns = record { stored = refl; handle = refl; context = refl }

request_async-pump_example :
    (t : Machine echo (Client App)) × (u : Machine echo (Client App)) × (request_async echo
        (some 0)
        message
        (pos 100)
        (pos 30)
        opened
      ≡ some (0, t))
    × (pump echo (some 0) (pos 10) t ≡ some (pos 0, u))
    × ((st : AsyncState) × (u.user.requests ≡ some st)
        × HasAnswer (extract_or_inject_id message 1).id (from_c (pos 0)) 0 st)
unfolding context_at echoes extract_or_inject_id extract_id is_empty
request_async-pump_example =
    request_async-pump echo_contract options {s = opened} {a = 0} {h = 0} {st = Pending.start}
      message (pos 100) (pos 30) (pos 10) opened_Owns refl start-IsValid (inl (message, refl, refl))
