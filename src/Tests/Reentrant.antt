-- ===== src/Tests/Reentrant.antt =====
-- A Bus whose message callback answers every message with `send`.

use stdiobus_cpp.Prelude.{
  ℕ, ◌≡◌, ◌≢◌, refl, Option, none, some, ap, or_default, List, [], ◌∷◌, Bytes,
}
use stdiobus_cpp.Prelude.Int.{pos}
use stdiobus_cpp.Embed.{running}
use stdiobus_cpp.Embed.Kernel
use stdiobus_cpp.Embed.Kernel.{Callback}
use stdiobus_cpp.Bus.Reentrant.{returns, calls, Kernel, Site, done, undefined, perform}
use stdiobus_cpp.Bus.Reentrant.Callbacks.{
  Slot, on_message, on_error, on_log, on_worker, on_client_connect, on_client_disconnect, Notice,
  step, send, Answer, stepped, Code, finish, run, set,
}
use stdiobus_cpp.Bus.Reentrant.Safe.{AllMeet, IsKept}
use stdiobus_cpp.Bus.Reentrant.Interface.{Contract}
use stdiobus_cpp.Bus.Reentrant.Replies.{IsReply, perform-IsKept}

-- Every step delivers one message; the state lists the messages passed on.
abbrev courses : Kernel
courses = record {
  World = List Bytes;
  start = λ h w. returns (pos 0) w;
  step = λ h n w.
      calls (record { event = Kernel.message (1 ∷ []); user_data = 7 }) w (λ v. returns (pos 1) v);
  stop = λ h n w. returns (pos 0) w;
  ingest = λ h m w. returns (pos 0) (m ∷ w);
  get_state = λ h w. running;
}

abbrev courses_contract : Contract courses
courses_contract = record {
  context = λ w h. some 7;
  start = λ h u w e. e;
  step = λ h u n w e. (ap (or_default 0) e, e, λ v f. f);
  stop = λ h u n w e. e;
  ingest = λ h u m w e. e;
}

abbrev answering : Slot → Option (Notice → Code ℕ)
answering on_message = some (λ x. run (send (2 ∷ [])) (λ a. finish))
answering slot = none

abbrev waiting : Site courses ℕ
waiting = record { world = []; handle = some 3; handlers = answering; user = 0 }

abbrev answered_site : Site courses ℕ
answered_site = record { world = (2 ∷ []) ∷ []; handle = some 3; handlers = answering; user = 0 }

answers : perform 7 2 [] (step (pos 0)) waiting ≡ done (stepped (pos 1), answered_site)
unfolding perform
answers = refl

answering-AllMeet : AllMeet IsReply (λ u. u ≡ 0) answering
answering-AllMeet on_message = λ x u p. (tt, p, λ a v q. q)
answering-AllMeet on_error = tt
answering-AllMeet on_log = tt
answering-AllMeet on_worker = tt
answering-AllMeet on_client_connect = tt
answering-AllMeet on_client_disconnect = tt

waiting-IsKept : IsKept courses_contract.context 7 3 answering waiting
waiting-IsKept = record { handle_kept = refl; context_kept = refl; handlers_kept = refl }

perform-IsKept_example :
    (perform 7 2 [] (step (pos 0)) waiting ≢ undefined)
    × ((a : Answer) (t : Site courses ℕ)
        → perform 7 2 [] (step (pos 0)) waiting ≡ done (a, t)
        → IsKept courses_contract.context 7 3 answering t × (t.user ≡ 0))
perform-IsKept_example =
    perform-IsKept courses_contract 7 3 answering (λ u. u ≡ 0) answering-AllMeet 2 [] (step (pos 0))
      waiting waiting-IsKept refl

-- A message callback that sets the message callback.
abbrev replacing : Slot → Option (Notice → Code ℕ)
replacing on_message = some (λ x. set on_message (λ y. finish) finish)
replacing slot = none

replaces : perform 7 2 [] (step (pos 0)) (record waiting { handlers = replacing }) ≡ undefined
unfolding perform
replaces = refl
