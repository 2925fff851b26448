-- ===== src/Async/Reentrant/Sections.antt =====
-- The mutex of an AsyncBus whose callbacks call it again: no method calls the Bus while it holds it.
use stdiobus_cpp.Prelude.{
  ℕ, ◌≡◌, refl, sym, subst, Option, none, some, Bytes, is_empty, Bool-cases, inl, inr,
}
use stdiobus_cpp.Prelude.Int.{ℤ, ◌+ℤ◌}
use stdiobus_cpp.Error.{is_error}
use stdiobus_cpp.Async.Pending.{AsyncState, Shared, register, settle}
use stdiobus_cpp.Async.Pending
use stdiobus_cpp.Async.Id.{extract_id, extract_or_inject_id}
use stdiobus_cpp.Bus.Reentrant.Safe.{SlotMeets, AllMeet}
use mathlib.Core.Option
use stdiobus_cpp.Async.Pending.Invariant.{IsValid, register-IsValid, settle-IsValid}
use stdiobus_cpp.Async.Pending.Timeouts.{check_timeouts_lem}
use stdiobus_cpp.Bus.Reentrant.Callbacks
use stdiobus_cpp.Bus.Reentrant.Callbacks.{
  Slot, on_message, on_error, on_log, on_worker, on_client_connect, on_client_disconnect, Notice,
  Operation, start, step, stop, send, Answer, gave, stepped, was, Code, finish, change, look, run,
  Meets,
}
use stdiobus_cpp.Async.Reentrant.{
  Members, unlocked, locked, broken, lock, unlock, inside, counter, set_counter, section,
  resolve_failed, request_async, handle_response, check_timeouts, App, ends, requests, notifies,
  sweeps, pumps, starts, stops, reads, code_of, message_handler, callbacks, futures,
}

-- The mutex is free, and the requests are valid.
abbrev pub IsFree : Members → Type 0
IsFree (unlocked s) = IsValid s
IsFree (locked s) = ⊥
IsFree broken = ⊥

-- The operations that the application calls.
abbrev pub UsesOnly : (Operation → Type 0) → App → Type 0
UsesOnly allows ends = Unit {0}
UsesOnly allows (requests message now timeout app) =
    ((m : Bytes) → allows (send m)) × UsesOnly allows app
UsesOnly allows (notifies message f) =
    allows (send message) × ((a : Answer) → UsesOnly allows (f a))
UsesOnly allows (sweeps now app) = UsesOnly allows app
UsesOnly allows (pumps timeout f) = allows (step timeout) × ((a : Answer) → UsesOnly allows (f a))
UsesOnly allows (starts f) = allows start × ((a : Answer) → UsesOnly allows (f a))
UsesOnly allows (stops timeout f) = allows (stop timeout) × ((a : Answer) → UsesOnly allows (f a))
UsesOnly allows (reads f) = (p : ℕ → Shared) → UsesOnly allows (f p)

set_counter-IsFree : (n : ℕ) (m : Members) → IsFree m → IsFree (set_counter n m)
unfolding set_counter
set_counter-IsFree n (unlocked s) v = record { distinct = v.distinct; held = v.held }
set_counter-IsFree n (locked s) v = absurd v
set_counter-IsFree n broken v = absurd v

module _ (allows : Operation → Type 0) where
  abbrev pub Fine : Code Members → Type 0
  Fine code = (m : Members) → IsFree m → Meets allows IsFree code m

  section-Meets :
      (f : AsyncState → Option AsyncState) (code : Code Members)
      → ((s : AsyncState) → IsValid s → (t : AsyncState) × (f s ≡ some t) × IsValid t)
      → Fine code
      → Fine (section f code)
  unfolding lock unlock inside
  section-Meets f code runs fine (unlocked s) v =
      let (t, e, w) = runs s v in
      subst (λ o. Meets allows IsFree code (unlock (elim o [ none ↦ broken | some t ↦ locked t ])))
        (sym e) (fine (unlocked t) w)
  section-Meets f code runs fine (locked s) v = absurd v
  section-Meets f code runs fine broken v = absurd v

  resolve_failed-Meets :
      (id : Bytes) (a : Answer) (code : Code Members) → Fine code → Fine (resolve_failed id a code)
  unfolding resolve_failed
  resolve_failed-Meets id (gave err) code fine = elim (Bool-cases (is_error err)) [
    | inl e ↦ rw (e, resolve_failed) (section-Meets _ code (λ s v. settle-IsValid id _ s v) fine)
    | inr e ↦ rw (e, resolve_failed) fine
  ]
  resolve_failed-Meets id (stepped n) code fine = fine
  resolve_failed-Meets id (was state) code fine = fine

  request_async-Meets :
      (message : Bytes) (now timeout : ℤ) (code : Code Members)
      → ((m : Bytes) → allows (send m))
      → Fine code
      → Fine (request_async message now timeout code)
  unfolding request_async
  request_async-Meets message now timeout code can fine m free =
      let x = extract_or_inject_id message (counter m) in
      section-Meets (λ s. some (register x.id (now +ℤ timeout) s))
        (run (send x.json) (λ a. resolve_failed x.id a code))
        (λ s v. (register x.id (now +ℤ timeout) s, refl, register-IsValid x.id (now +ℤ timeout) v))
        (λ m' free'. (can x.json, free', λ a v p. resolve_failed-Meets x.id a code fine v p))
        (set_counter x.next_id m) (set_counter-IsFree x.next_id m free)

  handle_response-Meets : (msg : Bytes) → Fine (handle_response msg)
  unfolding handle_response
  handle_response-Meets msg = elim (Bool-cases (is_empty (extract_id msg))) [
    | inl e ↦ rw (e, handle_response) (λ m free. free)
    | inr e ↦
        rw (e, handle_response)
          (section-Meets _ finish (λ s v. settle-IsValid (extract_id msg) _ s v) (λ m free. free))
  ]

  message_handler-Meets : (x : Notice) → Fine (message_handler x)
  unfolding message_handler
  message_handler-Meets (Callbacks.message msg) = handle_response-Meets msg
  message_handler-Meets (Callbacks.error code msg) = λ m free. free
  message_handler-Meets (Callbacks.numbered n msg) = λ m free. free

  -- Whatever the application does with the methods of AsyncBus, it calls the Bus with the mutex free.
  pub code_of-Meets : (app : App) → UsesOnly allows app → Fine (code_of app)
  unfolding code_of check_timeouts
  code_of-Meets ends uses = λ m free. free
  code_of-Meets (requests message now timeout app) uses =
      request_async-Meets message now timeout (code_of app) uses.0 (code_of-Meets app uses.1)
  code_of-Meets (notifies message f) uses =
      λ m free. (uses.0, free, λ a v p. code_of-Meets (f a) (uses.1 a) v p)
  code_of-Meets (sweeps now app) uses =
      section-Meets (Pending.check_timeouts now) (code_of app)
        (λ s v. let (t, e, _, _, _, w) = check_timeouts_lem now s v in (t, e, w))
        (code_of-Meets app uses)
  code_of-Meets (pumps timeout f) uses =
      λ m free. (uses.0, free, λ a v p. code_of-Meets (f a) (uses.1 a) v p)
  code_of-Meets (starts f) uses =
      λ m free. (uses.0, free, λ a v p. code_of-Meets (f a) (uses.1 a) v p)
  code_of-Meets (stops timeout f) uses =
      λ m free. (uses.0, free, λ a v p. code_of-Meets (f a) (uses.1 a) v p)
  code_of-Meets (reads f) uses = λ m free. code_of-Meets (f (futures m)) (uses (futures m)) m free

  -- Each of the application's callbacks calls only what is allowed.
  abbrev pub OtherUses : Option (Notice → App) → Type 0
  OtherUses none = Unit {0}
  OtherUses (some f) = (x : Notice) → UsesOnly allows (f x)

  other-Meets :
      (other : Option (Notice → App))
      → OtherUses other
      → SlotMeets allows IsFree (Option.map (λ f x. code_of (f x)) other)
  other-Meets none uses = tt
  other-Meets (some f) uses = λ x m free. code_of-Meets (f x) (uses x) m free

  pub callbacks-AllMeet :
      (others : Slot → Option (Notice → App))
      → ((slot : Slot) → OtherUses (others slot))
      → AllMeet allows IsFree (callbacks others)
  unfolding callbacks
  callbacks-AllMeet others uses on_message = message_handler-Meets
  callbacks-AllMeet others uses on_error = other-Meets (others on_error) (uses on_error)
  callbacks-AllMeet others uses on_log = other-Meets (others on_log) (uses on_log)
  callbacks-AllMeet others uses on_worker = other-Meets (others on_worker) (uses on_worker)
  callbacks-AllMeet others uses on_client_connect =
      other-Meets (others on_client_connect) (uses on_client_connect)
  callbacks-AllMeet others uses on_client_disconnect =
      other-Meets (others on_client_disconnect) (uses on_client_disconnect)
