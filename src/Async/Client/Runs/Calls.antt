-- ===== src/Async/Client/Runs/Calls.antt =====
-- The methods of AsyncBus in code on one AsyncBus.
use stdiobus_cpp.Prelude.{
  ℕ, ◌≡◌, refl, ◌∙◌, Option, some, [], Bytes, is_empty, Bool-cases, inl, inr,
}
use stdiobus_cpp.Prelude.Int.{ℤ, pos, ◌+ℤ◌, to_int}
use stdiobus_cpp.Embed.Kernel.{Kernel, Contract}
use stdiobus_cpp.Types.{Options}
use stdiobus_cpp.Bus.Delivery.{after}
use stdiobus_cpp.Bus.Behaviour.{owned_operations}
use stdiobus_cpp.Error
use stdiobus_cpp.Error.{Error, is_error}
use stdiobus_cpp.Async.Id.{extract_id, extract_or_inject_id}
use stdiobus_cpp.Async.Pending.{AsyncState, AsyncResult, settle, handle_response}
use stdiobus_cpp.Async.Pending
use stdiobus_cpp.Async.Client.{
  start, stop, pump, notify, check_timeouts, section, resolve_failed, request_async,
}
use stdiobus_cpp.Async.Client.Hooked.{Stays}
use stdiobus_cpp.Async.Client.Sending.{
  section-eq, with_requests, registered, sending, request_async-eq,
}
use stdiobus_cpp.Async.Client.Session.{owner_impl, Session, after-Session}
use stdiobus_cpp.Async.Client.Runs.{Runs, Runs-pure, Runs-if}

-- Settling a request runs and keeps P.
abbrev pub Settles : (AsyncState → Type 0) → Type 0
Settles P =
    (id : Bytes) (result : AsyncResult) (st : AsyncState)
    → P st
    → (st' : AsyncState) × (settle id result st ≡ some st') × P st'

pub Settles-Stays : (P : AsyncState → Type 0) → Settles P → Stays P
unfolding handle_response
Settles-Stays P settles msg st x = elim (Bool-cases (is_empty (extract_id msg))) [
  | inl e ↦ (st, rw (e, handle_response) refl, x)
  | inr e ↦
      let (st', eq, y) =
        settles (extract_id msg) (record { error = Error.ok; response = msg }) st x in
      (st', rw (e, handle_response) eq, y)
]

module _ {K : Kernel} {A : Type 0} (L : Contract K) (o : Options A) (a h : ℕ) where
  -- Calls of the kernel: start, stop and step deliver messages and nothing else.
  pub Runs-start : (P : AsyncState → Type 0) → Stays P → Runs L o a h P (λ _. P) (start K (some a))
  unfolding start
  Runs-start P stays s v = (
    _,
    after s (owner_impl L o a h) (K.start h),
    (owned_operations L v.own (pos 0) []).0,
    after-Session L o a h P stays (K.start h) s (L.start_keeps h) v,
    (L.start_keeps h).same s.world,
  )

  pub Runs-stop :
      (P : AsyncState → Type 0) → Stays P → (n : ℤ) → Runs L o a h P (λ _. P) (stop K (some a) n)
  unfolding stop
  Runs-stop P stays n s v = (
    _,
    after s (owner_impl L o a h) (K.stop h (to_int n)),
    (owned_operations L v.own n []).1,
    after-Session L o a h P stays (K.stop h (to_int n)) s (L.stop_keeps h (to_int n)) v,
    (L.stop_keeps h (to_int n)).same s.world,
  )

  pub Runs-pump :
      (P : AsyncState → Type 0) → Stays P → (n : ℤ) → Runs L o a h P (λ _. P) (pump K (some a) n)
  unfolding pump
  Runs-pump P stays n s v = (
    _,
    after s (owner_impl L o a h) (K.step h (to_int n)),
    (owned_operations L v.own n []).3,
    after-Session L o a h P stays (K.step h (to_int n)) s (L.step_keeps h (to_int n)) v,
    (L.step_keeps h (to_int n)).same s.world,
  )

  pub Runs-notify :
      (P : AsyncState → Type 0)
      → Stays P
      → (m : Bytes) → Runs L o a h P (λ _. P) (notify K (some a) m)
  unfolding notify
  Runs-notify P stays m s v = (
    _,
    after s (owner_impl L o a h) (K.ingest h m),
    (owned_operations L v.own (pos 0) m).2,
    after-Session L o a h P stays (K.ingest h m) s (L.ingest_keeps h m) v,
    (L.ingest_keeps h m).same s.world,
  )

  Runs-section :
      (P Q : AsyncState → Type 0) (f : AsyncState → Option AsyncState)
      → ((st : AsyncState) → P st → (st' : AsyncState) × (f st ≡ some st') × Q st')
      → Runs L o a h P (λ _. Q) (section K f)
  Runs-section P Q f steps s v =
      let (st, e, x) = v.holds in
      let (st', eq, y) = steps st x in
      (
        tt,
        with_requests st' s,
        section-eq f s st st' e eq,
        record {
          own = record { stored = v.own.stored; handle = refl; context = v.own.context };
          holds = (st', refl, y);
        },
        λ j. refl,
      )

  pub Runs-check_timeouts :
      (P Q : AsyncState → Type 0) (now : ℤ)
      → ((st : AsyncState)
          → P st
          → (st' : AsyncState) × (Pending.check_timeouts now st ≡ some st') × Q st')
      → Runs L o a h P (λ _. Q) (check_timeouts K now)
  unfolding check_timeouts
  Runs-check_timeouts P Q now = Runs-section P Q (Pending.check_timeouts now)

  Runs-resolve_failed :
      (P : AsyncState → Type 0) (id : Bytes) (err : Error)
      → Settles P
      → Runs L o a h P (λ _. P) (resolve_failed K id err)
  unfolding resolve_failed
  Runs-resolve_failed P id err settles =
      Runs-if L o a h (is_error err)
        (λ _.
          Runs-section P P (settle id (record { error = err; response = [] }))
            (settles id (record { error = err; response = [] })))
        (λ _. Runs-pure L o a h tt (λ st x. x))

  -- A request: Q holds of its future and of the requests when it is sent, and what comes after the
  -- registration only settles requests.
  pub Runs-request_async :
      (P : AsyncState → Type 0) (Q : ℕ → AsyncState → Type 0) (message : Bytes) (now timeout : ℤ)
      → ((st : AsyncState) → P st → Q st.next_promise (registered message (now +ℤ timeout) st))
      → ((f : ℕ) → Settles (Q f))
      → Runs L o a h P Q (request_async K (some a) message now timeout)
  Runs-request_async P Q message now timeout registers settles s v =
      let (st, e, x) = v.holds in
      let id = extract_or_inject_id message st.next_id in
      let q = settles st.next_promise in
      let s1 = sending message (now +ℤ timeout) st s in
      let v1 : Session L o a h (Q st.next_promise) s1 = record {
        own = record { stored = v.own.stored; handle = refl; context = v.own.context };
        holds = (_, refl, registers st x);
      } in
      let ingest = K.ingest h id.json in
      let v2 =
        after-Session L o a h _ (Settles-Stays _ q) ingest s1 (L.ingest_keeps h id.json) v1 in
      let (_, t, done, w, same) = Runs-resolve_failed _ id.id _ q _ v2 in
      (
        st.next_promise,
        t,
        request_async-eq (some a) s _ t st message now timeout _ e
            (owned_operations L v1.own timeout id.json).2 done,
        w,
        λ j. same j ∙ (L.ingest_keeps h id.json).same s.world j,
      )
