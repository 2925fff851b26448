-- ===== src/Tests/Callbacks.antt =====
-- An application that makes a request and pumps; a worker event during the pump makes a second
-- request, and the kernel then passes that one's message back.

use stdiobus_cpp.Prelude.{
  ℕ, ◌≡◌, ◌≢◌, refl, ap, or_default, Option, none, some, List, [], ◌∷◌, Bytes, codes,
}
use stdiobus_cpp.Prelude.Int.{ℤ, pos}
use stdiobus_cpp.Embed.{running}
use stdiobus_cpp.Embed.Kernel
use stdiobus_cpp.Embed.Kernel.{Callback}
use stdiobus_cpp.Error
use stdiobus_cpp.Async.Pending
use stdiobus_cpp.Async.Pending.{Shared, waiting, ready}
use stdiobus_cpp.Async.Pending.Invariant.{start-IsValid}
use stdiobus_cpp.Bus.Reentrant.{
  Course, returns, calls, Kernel, Site, Outcome, done, undefined, deeper, run_code, perform,
}
use stdiobus_cpp.Bus.Reentrant.Callbacks.{
  Slot, on_message, on_error, on_log, on_worker, on_client_connect, on_client_disconnect, Notice,
}
use stdiobus_cpp.Bus.Reentrant.Safe.{IsKept}
use stdiobus_cpp.Bus.Reentrant.Interface.{Contract, Keeps}
use stdiobus_cpp.Bus.Reentrant.Replies.{IsReply, IsNone}
use stdiobus_cpp.Async.Reentrant.{
  Members, unlocked, lock, unlock, inside, App, ends, requests, sweeps, pumps, code_of, callbacks,
  futures,
}
use stdiobus_cpp.Async.Reentrant.Sections.{IsFree, OtherUses}
use stdiobus_cpp.Async.Reentrant.Returns.{app-IsFree, app-returns}

-- The kernel passes on the newest message.
abbrev delivery : List Bytes → Course (List Bytes) ℤ
delivery [] = returns (pos 0) []
delivery (m ∷ rest) =
    calls (record { event = Kernel.message m; user_data = 7 }) rest (λ v. returns (pos 1) v)

abbrev newest : Kernel
newest = record {
  World = List Bytes;
  start = λ h w. returns (pos 0) w;
  step = λ h n w. calls (record { event = Kernel.worker (pos 1) none; user_data = 7 }) w delivery;
  stop = λ h n w. returns (pos 0) w;
  ingest = λ h m w. returns (pos 0) (m ∷ w);
  get_state = λ h w. running;
}

delivery-Keeps :
    (u : ℕ) (w : List Bytes) → some 7 ≡ some u → Keeps u (λ v. some 7 ≡ some u) (delivery w)
delivery-Keeps u [] e = e
delivery-Keeps u (m ∷ rest) e = (ap (or_default 0) e, e, λ v f. f)

abbrev newest_contract : Contract newest
newest_contract = record {
  context = λ w h. some 7;
  start = λ h u w e. e;
  step = λ h u n w e. (ap (or_default 0) e, e, λ v f. delivery-Keeps u v f);
  stop = λ h u n w e. e;
  ingest = λ h u m w e. e;
}

abbrev others : Slot → Option (Notice → App)
others on_worker = some (λ x. requests (codes "{\"id\":8}") (pos 0) (pos 30) ends)
others slot = none

others-IsReply : (slot : Slot) → OtherUses IsReply (others slot)
others-IsReply on_message = tt
others-IsReply on_error = tt
others-IsReply on_log = tt
others-IsReply on_worker = λ x. (λ m. tt, tt)
others-IsReply on_client_connect = tt
others-IsReply on_client_disconnect = tt

abbrev app : App
app = requests (codes "{\"id\":7}") (pos 0) (pos 30) (pumps (pos 0) (λ a. ends))

abbrev calm : Site newest Members
calm = record {
  world = [];
  handle = some 3;
  handlers = callbacks others;
  user = unlocked Pending.start;
}

calm-IsKept : IsKept newest_contract.context 7 3 (callbacks others) calm
calm-IsKept = record { handle_kept = refl; context_kept = refl; handlers_kept = refl }

-- What a future has when the application is done.
abbrev future_of : ℕ → Outcome (Site newest Members) → Option Shared
future_of p (done t) = some (futures t.user p)
future_of p undefined = none
future_of p deeper = none

answers_second :
    future_of 1 (run_code (perform 7 2 []) [] (code_of app) calm)
    ≡ some (ready (record { error = Error.ok; response = codes "{\"id\":8}" }))
unfolding run_code perform code_of callbacks futures unlock inside lock
answers_second = refl

waits_first : future_of 0 (run_code (perform 7 2 []) [] (code_of app) calm) ≡ some waiting
unfolding run_code perform code_of callbacks futures unlock inside lock
waits_first = refl

app-IsFree_example :
    (run_code (perform 7 5 []) [] (code_of app) calm ≢ undefined)
    × ((t : Site newest Members)
        → run_code (perform 7 5 []) [] (code_of app) calm ≡ done t
        → IsKept newest_contract.context 7 3 (callbacks others) t × IsFree t.user)
app-IsFree_example =
    app-IsFree newest_contract 7 3 others others-IsReply 5 app calm calm-IsKept start-IsValid

-- A worker event checks the timeouts.
abbrev silent : Slot → Option (Notice → App)
silent on_worker = some (λ x. sweeps (pos 1) ends)
silent slot = none

silent-IsNone : (slot : Slot) → OtherUses IsNone (silent slot)
silent-IsNone on_message = tt
silent-IsNone on_error = tt
silent-IsNone on_log = tt
silent-IsNone on_worker = λ x. tt
silent-IsNone on_client_connect = tt
silent-IsNone on_client_disconnect = tt

abbrev quiet : Site newest Members
quiet = record calm { handlers = callbacks silent }

quiet-IsKept : IsKept newest_contract.context 7 3 (callbacks silent) quiet
quiet-IsKept = record { handle_kept = refl; context_kept = refl; handlers_kept = refl }

app-returns_example :
    (t : Site newest Members) × (run_code (perform 7 1 []) [] (code_of app) quiet ≡ done t)
    × IsKept newest_contract.context 7 3 (callbacks silent) t
    × IsFree t.user
app-returns_example =
    app-returns newest_contract 7 3 silent silent-IsNone 0 app quiet quiet-IsKept start-IsValid
