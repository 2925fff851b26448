-- ===== src/Async/Threads/Acts.antt =====
-- The threads against the specification of the futures: what each step does to them, as one action.
use stdiobus_cpp.Prelude.{
  ℕ, ◌≡◌, refl, sym, ap, ◌∙◌, some, Option, List, [], ◌∷◌, ◌++◌, Bytes, is_empty, if◌then◌else◌,
  Bool-cases, inl, inr,
}
use stdiobus_cpp.Prelude.Int.{ℤ, ◌+ℤ◌}
use stdiobus_cpp.Error
use stdiobus_cpp.Async.Id.{extract_id, extract_or_inject_id}
use stdiobus_cpp.Async.Pending
use stdiobus_cpp.Async.Pending.{AsyncState, AsyncResult, handle_response}
use stdiobus_cpp.Async.Pending.Invariant.{IsValid}
use stdiobus_cpp.Async.Pending.Spec.{Futures, ask, answer, expire, each}
use stdiobus_cpp.Async.Pending.Spec
use stdiobus_cpp.Async.Pending.View.{view}
use stdiobus_cpp.Async.Pending.Refinement.{
  Refines, register-Refines, settle-Refines, response-Refines, tick-Refines,
}
use stdiobus_cpp.Async.Threads.{
  Pc, send_error, Move, identify, enter, send_succeeds, send_fails, resolve, leave, leave_failed,
  read_clock, sweep, receive, respond, System, pick, Reach, start, later,
}
use stdiobus_cpp.Async.Threads.Stable.{the_state}
use stdiobus_cpp.Async.Threads.Invariant.{Reach-IsSound}

pub data Act : Type 0 where
  counted : ℕ → Act
  asked : Bytes → ℤ → Act
  answered : Bytes → AsyncResult → Act
  expired : ℤ → Act

abbrev pub perform : Act → Futures → Futures
perform (counted n) v = record v { next_id = n }
perform (asked id deadline) v = ask id deadline v
perform (answered id result) v = each (answer id result) v
perform (expired now) v = each (expire now) v

-- The last action first.
abbrev pub performs : List Act → Futures → Futures
performs [] v = v
performs (a ∷ rest) v = perform a (performs rest v)

-- What a step does to the futures.
abbrev pub act_of : {s t : AsyncState} {p q : Pc} → Move s p t q → List Act
act_of {s} (identify message timeout) =
    counted (extract_or_inject_id message s.next_id).next_id ∷ []
act_of (enter {id} {timeout} now) = asked id (now +ℤ timeout) ∷ []
act_of (send_succeeds err e) = []
act_of (send_fails err e) = []
act_of (resolve {id} {err} e) = answered id (send_error err) ∷ []
act_of leave = []
act_of leave_failed = []
act_of (read_clock now) = []
act_of (sweep {now} e) = expired now ∷ []
act_of (receive msg) = []
act_of (respond {msg} e) =
    if is_empty (extract_id msg)
    then []
    else answered (extract_id msg) (record { error = Error.ok; response = msg }) ∷ []

abbrev pub acts : {s : System} → Reach s → List Act
acts start = []
acts (later r (pick i move)) = act_of move ++ acts r

-- The state that a section gives.
view_of :
    {o : Option AsyncState} {t : AsyncState} {v : Futures} → o ≡ some t → Refines o v → view t ≡ v
view_of {v = v} e (x, f, _, same) = the_state (λ z. view z ≡ v) e (x, f, same)

performs-append :
    (xs bs : List Act) (v : Futures) → performs (xs ++ bs) v ≡ performs xs (performs bs v)
performs-append [] bs v = refl
performs-append (a ∷ rest) bs v = ap (perform a) (performs-append rest bs v)

Move-act_of :
    {s t : AsyncState} {p q : Pc} (move : Move s p t q)
    → IsValid s
    → view t ≡ performs (act_of move) (view s)
unfolding Spec.apply
Move-act_of (identify message timeout) v = refl
Move-act_of {s} (enter {id} {timeout} now) v = register-Refines id (now +ℤ timeout) s v
Move-act_of (send_succeeds err e) v = refl
Move-act_of (send_fails err e) v = refl
Move-act_of {s} (resolve {id} {err} e) v = view_of e (settle-Refines id (send_error err) s v)
Move-act_of leave v = refl
Move-act_of leave_failed v = refl
Move-act_of (read_clock now) v = refl
Move-act_of {s} (sweep {now} e) v = view_of e (tick-Refines now s v)
Move-act_of (receive msg) v = refl
Move-act_of {s} (respond {msg} e) v = elim (Bool-cases (is_empty (extract_id msg))) [
  | inl f ↦ rw f (rw (f, Spec.apply) at (view_of e (response-Refines msg s v)))
  | inr f ↦ rw f (rw (f, Spec.apply) at (view_of e (response-Refines msg s v)))
]

-- Every interleaving of the threads is a sequence of whole actions on the futures, one for each
-- atomic step, in the order of the steps: a request opens its future when it is registered, a
-- refused send or a response answers the future that is open under its id, and a sweep expires.
pub Reach-acts :
    {s : System} (r : Reach s) → view s.requests ≡ performs (acts r) (view Pending.start)
Reach-acts start = refl
Reach-acts (later r (pick i move)) =
    Move-act_of move (Reach-IsSound r).valid
    ∙ ap (performs (act_of move)) (Reach-acts r)
    ∙ sym (performs-append (act_of move) (acts r) (view Pending.start))
