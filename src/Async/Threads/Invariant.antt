-- ===== src/Async/Threads/Invariant.antt =====
-- What holds of the requests and of every thread in each reachable state.
use stdiobus_cpp.Prelude.{
  ◌⊎◌, ◌≤◌, ℕ, ◌<◌, ◌≡◌, ◌≢◌, refl, subst, ◌∙◌, false, arith, ◌==◌, Bool-cases, inl, inr,
}
use stdiobus_cpp.Prelude.Int.{pos}
use stdiobus_cpp.Error
use stdiobus_cpp.Error.{Error, is_error}
use stdiobus_cpp.Async.Table.{PendingRequest}
use stdiobus_cpp.Async.Pending.{
  AsyncState, AsyncResult, waiting, ready, broken, Shared, settle, handle_response, check_timeouts,
}
use stdiobus_cpp.Async.Pending
use stdiobus_cpp.Async.Pending.Invariant.{IsValid, is_waiting, start-IsValid, settle-IsValid}
use stdiobus_cpp.Async.Pending.Response.{handle_response-IsValid}
use stdiobus_cpp.Async.Pending.Timeouts.{check_timeouts_lem}
use stdiobus_cpp.Async.Pending.Tracks.{register-Tracks, settle-resolves}
use stdiobus_cpp.Async.Threads.{
  Pc, idle, identified, sending, refused, returned, failed, sweeping, handling, send_error, Move,
  identify, enter, send_succeeds, send_fails, resolve, leave, leave_failed, read_clock, sweep,
  receive, respond, System, Step, pick, Reach, start, later,
}
use stdiobus_cpp.Async.Threads.Stable.{
  Pursues, Stable, counter-Stable, same-Stable, settle-next, the_state, register-Stable,
  settle-Stable, handle_response-Stable, check_timeouts-Stable,
}

-- What the locals of a thread say of the requests.
abbrev pub Holds : AsyncState → Pc → Type 0
Holds s (sending id r) = Pursues id r s
Holds s (refused id err r) = Pursues id r s
Holds s (failed r) = (r.promise < s.next_promise) × (is_waiting (s.promises r.promise) ≡ false)
Holds s _ = Unit {0}

Holds-Stable : {s t : AsyncState} → Stable s t → (p : Pc) → Holds s p → Holds t p
Holds-Stable st (sending id r) h = st.pursues id r h
Holds-Stable st (refused id err r) h = st.pursues id r h
Holds-Stable st (failed r) h = let (m, same) = st.settles r.promise h.0 h.1 in (m, rw same h.1)
Holds-Stable st idle h = tt
Holds-Stable st (identified id n) h = tt
Holds-Stable st (returned r) h = tt
Holds-Stable st (sweeping now) h = tt
Holds-Stable st (handling msg) h = tt

pub Move-Stable : {s t : AsyncState} {p q : Pc} → Move s p t q → IsValid s → Stable s t
Move-Stable {s} (identify message timeout) v = counter-Stable _ s v
Move-Stable {s} (enter {id} {timeout} now) v = register-Stable id _ s v
Move-Stable {s} (send_succeeds err e) v = same-Stable s v
Move-Stable {s} (send_fails err e) v = same-Stable s v
Move-Stable {s} {t} (resolve {id} {err} e) v = settle-Stable id (send_error err) s t v e
Move-Stable {s} leave v = same-Stable s v
Move-Stable {s} leave_failed v = same-Stable s v
Move-Stable {s} (read_clock now) v = same-Stable s v
Move-Stable {s} {t} (sweep {now} e) v = check_timeouts-Stable now s t v e
Move-Stable {s} (receive msg) v = same-Stable s v
Move-Stable {s} {t} (respond {msg} e) v = handle_response-Stable msg s t v e

not_waiting : (x : Shared) → x ≢ waiting → is_waiting x ≡ false
not_waiting waiting h = absurd (h refl)
not_waiting (ready r) h = refl
not_waiting broken h = refl

-- The thread that moves.
Move-Holds : {s t : AsyncState} {p q : Pc} → Move s p t q → IsValid s → Holds s p → Holds t q
unfolding Pending.register
Move-Holds (identify message timeout) v h = tt
Move-Holds {s} (enter {id} now) v h = (omega arith, register-Tracks id _ s)
Move-Holds (send_succeeds err e) v h = tt
Move-Holds (send_fails err e) v h = h
Move-Holds {s} {t} (resolve {id} {err} {r} e) v h = (
  rw (settle-next id (send_error err) s t e) h.0,
  not_waiting (t.promises r.promise) (
      the_state (λ x. x.promises r.promise ≢ waiting) e
        (let (x, f, _, ne) = settle-resolves id r (send_error err) s v h.1 in (x, f, ne))),
)
Move-Holds leave v h = tt
Move-Holds leave_failed v h = tt
Move-Holds (read_clock now) v h = tt
Move-Holds (sweep e) v h = tt
Move-Holds (receive msg) v h = tt
Move-Holds (respond e) v h = tt

pub record IsSound (s : System) : Type 0 where
  pub valid : IsValid s.requests
  pub holds : (i : ℕ) → Holds s.requests (s.pc i)

Step-IsSound : {s t : System} → Step s t → IsSound s → IsSound t
Step-IsSound {s} (pick i {t} {p} move) h =
    let st = Move-Stable move h.valid in
    record {
      valid = st.valid;
      holds = λ j. elim (Bool-cases (i == j)) [
        | inl e ↦ rw e (Move-Holds move h.valid (h.holds i))
        | inr e ↦ rw e (Holds-Stable st (s.pc j) (h.holds j))
      ];
    }

pub Reach-IsSound : {s : System} → Reach s → IsSound s
Reach-IsSound start = record { valid = start-IsValid; holds = λ i. tt }
Reach-IsSound (later r step) = Step-IsSound step (Reach-IsSound r)

-- A thread can move from anywhere.
moves : (s : AsyncState) (p : Pc) → IsValid s → (t : AsyncState) × (q : Pc) × Move s p t q
unfolding is_error
moves s idle v = (s, sweeping (pos 0), read_clock (pos 0))
moves s (identified id timeout) v = (_, _, enter (pos 0))
moves s (sending id r) v = (s, returned r, send_succeeds Error.ok refl)
moves s (refused id err r) v =
    let (t, e, _) = settle-IsValid id (send_error err) s v in (t, failed r, resolve e)
moves s (returned r) v = (s, idle, leave)
moves s (failed r) v = (s, idle, leave_failed)
moves s (sweeping now) v = let (t, e, _, _, _, _) = check_timeouts_lem now s v in (t, idle, sweep e)
moves s (handling msg) v = let (t, e, _) = handle_response-IsValid msg s v in (t, idle, respond e)

-- How many steps a thread is from its return, at most.
unfoldable pub steps_left : Pc → ℕ
steps_left idle = 0
steps_left (identified id timeout) = 4
steps_left (sending id r) = 3
steps_left (refused id err r) = 2
steps_left (returned r) = 1
steps_left (failed r) = 1
steps_left (sweeping now) = 1
steps_left (handling msg) = 1

steps_left_le : (p : Pc) → steps_left p ≤ 4
unfolding steps_left
steps_left_le p = ground arith

-- A step enters a method, or comes closer to its return.
Move-steps_left :
    {s t : AsyncState} {p q : Pc} → Move s p t q → (p ≡ idle) ⊎ (steps_left q < steps_left p)
unfolding steps_left
Move-steps_left (identify message timeout) = inl refl
Move-steps_left (enter now) = inr (omega arith)
Move-steps_left (send_succeeds err e) = inr (omega arith)
Move-steps_left (send_fails err e) = inr (omega arith)
Move-steps_left (resolve e) = inr (omega arith)
Move-steps_left leave = inr (omega arith)
Move-steps_left leave_failed = inr (omega arith)
Move-steps_left (read_clock now) = inl refl
Move-steps_left (sweep e) = inr (omega arith)
Move-steps_left (receive msg) = inl refl
Move-steps_left (respond e) = inr (omega arith)

-- In every interleaving of the threads the requests stay valid, every thread can take its next step,
-- so no set_value ever throws, and each step of a thread in a method brings it closer to its return,
-- which is at most four of its own steps away.
pub threads_move :
    {s : System}
    → Reach s
    → IsValid s.requests
      × ((i : ℕ)
          → ((t : AsyncState) × (q : Pc) × Move s.requests (s.pc i) t q)
            × ((t : AsyncState) (q : Pc)
                → Move s.requests (s.pc i) t q
                → (s.pc i ≡ idle) ⊎ (steps_left q < steps_left (s.pc i)))
            × (steps_left (s.pc i) ≤ 4))
threads_move {s} r =
    let h = Reach-IsSound r in
    (
      h.valid,
      λ i. (
        moves s.requests (s.pc i) h.valid,
        λ t q move. Move-steps_left move,
        steps_left_le (s.pc i),
      ),
    )

-- In every interleaving of the threads, when request_async returns after a send that failed, its
-- future does not wait.
pub failed_resolved :
    {s : System} (i : ℕ) (r : PendingRequest)
    → Reach s
    → s.pc i ≡ failed r
    → is_waiting (s.requests.promises r.promise) ≡ false
failed_resolved {s} i r reach e = (subst (Holds s.requests) e ((Reach-IsSound reach).holds i)).1

-- The steps from one state to another.
pub data Steps (s : System) : System → Type 0 where
  none_yet : Steps s s
  more : {t u : System} → Steps s t → Step t u → Steps s u

Reach-Steps : {s t : System} → Reach s → Steps s t → Reach t
Reach-Steps r none_yet = r
Reach-Steps r (more ss step) = later (Reach-Steps r ss) step

-- In every interleaving of the threads, a future that has its result, or is broken, keeps what it
-- has, whatever steps follow.
pub result_kept :
    {s t : System} (p : ℕ)
    → Reach s
    → Steps s t
    → p < s.requests.next_promise
    → is_waiting (s.requests.promises p) ≡ false
    → (p < t.requests.next_promise) × (t.requests.promises p ≡ s.requests.promises p)
result_kept p r none_yet m w = (m, refl)
result_kept p r (more ss (pick i move)) m w =
    let (m1, same) = result_kept p r ss m w in
    let (m2, same2) =
      (Move-Stable move (Reach-IsSound (Reach-Steps r ss)).valid).settles p m1 (rw same w) in
    (m2, same2 ∙ same)
