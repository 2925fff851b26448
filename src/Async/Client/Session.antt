-- ===== src/Async/Client/Session.antt =====
-- A sequence of calls on one AsyncBus whose Bus has an instance.
pub mod Trace
pub mod Refinement
use stdiobus_cpp.Prelude.{ℕ, ◌≡◌, refl, ap, Option, none, some, List, [], ◌∷◌, Bytes}
use stdiobus_cpp.Prelude.Int.{ℤ, pos, to_int}
use stdiobus_cpp.Embed.Kernel.{Kernel, Reply, Keeps, Contract}
use stdiobus_cpp.Types.{Options}
use stdiobus_cpp.Bus.Machine.{Impl, Bus, Machine}
use stdiobus_cpp.Bus.Delivery.{after}
use stdiobus_cpp.Bus.Behaviour.{Owns, owned_operations, owned_after}
use stdiobus_cpp.Bus.Program.{final}
use stdiobus_cpp.Async.Pending.{AsyncState}
use stdiobus_cpp.Async.Pending
use stdiobus_cpp.Async.Pending.Invariant.{IsValid}
use stdiobus_cpp.Async.Pending.Response.{handle_response-IsValid}
use stdiobus_cpp.Async.Pending.Timeouts.{check_timeouts_lem}
use stdiobus_cpp.Async.Client.{Client, start, stop, pump, notify, request_async, check_timeouts}
use stdiobus_cpp.Async.Client.Hooked.{hooked, Stays, Holds, deliver-keeps}
use stdiobus_cpp.Async.Client.Sending.{section-eq, with_requests}
use stdiobus_cpp.Async.Client.Requests.{request_async_lem}

-- A public method with its arguments; a time is the reading of the clock that the method makes.
pub data Call : Type 0 where
  start_call : Call
  stop_call : ℤ → Call
  pump_call : ℤ → Call
  notify_call : Bytes → Call
  request_call : Bytes → ℤ → ℤ → Call
  timeouts_call : ℤ → Call

module _ (K : Kernel) {A : Type 0} where
  unfoldable pub run_call : Call → Bus → Machine K (Client A) → Option (Machine K (Client A))
  unfolding start stop pump notify request_async check_timeouts
  run_call start_call bus s = final (start K bus s)
  run_call (stop_call timeout) bus s = final (stop K bus timeout s)
  run_call (pump_call timeout) bus s = final (pump K bus timeout s)
  run_call (notify_call message) bus s = final (notify K bus message s)
  run_call (request_call message now timeout) bus s =
      final (request_async K bus message now timeout s)
  run_call (timeouts_call now) bus s = final (check_timeouts K now s)

  unfoldable pub run_calls : List Call → Bus → Machine K (Client A) → Option (Machine K (Client A))
  unfolding run_call
  run_calls [] bus s = some s
  run_calls (c ∷ cs) bus s = elim (run_call c bus s) [ none ↦ none | some t ↦ run_calls cs bus t ]

module _ {K : Kernel} {A : Type 0} (L : Contract K) (o : Options A) (a h : ℕ) where
  abbrev pub owner_impl : Impl (Client A)
  owner_impl = record { handle = some h; options = hooked o }

  -- The AsyncBus at `a` owns the instance `h`, and its requests satisfy P.
  pub record Session (P : AsyncState → Type 0) (s : Machine K (Client A)) : Type 0 where
    pub own : Owns L s a h owner_impl
    pub holds : Holds P s.user

  -- A call of the kernel that only delivers messages.
  pub after-Session :
      (P : AsyncState → Type 0)
      → Stays P
      → {B : Type 0} (f : K.World → Reply K.World B) (s : Machine K (Client A))
      → Keeps K L.context h B f
      → Session P s
      → Session P (after s owner_impl f)
  after-Session P stays f s k v = record {
    own = owned_after L v.own f k;
    holds = deliver-keeps P stays (f s.world).callbacks o (some h) s.user v.holds;
  }

  -- A critical section that keeps P.
  pub section-Session :
      (P Q : AsyncState → Type 0) (now : ℤ) (s : Machine K (Client A))
      → ((st : AsyncState)
          → P st
          → (st' : AsyncState) × (Pending.check_timeouts now st ≡ some st') × Q st')
      → Session P s
      → (t : Machine K (Client A)) × (check_timeouts K now s ≡ some (tt, t)) × Session Q t
  unfolding check_timeouts
  section-Session P Q now s sweeps v =
      let (st, e, x) = v.holds in
      let (st', eq, y) = sweeps st x in
      (
        with_requests st' s,
        section-eq (Pending.check_timeouts now) s st st' e eq,
        record {
          own = record { stored = v.own.stored; handle = refl; context = v.own.context };
          holds = (st', refl, y);
        },
      )

  abbrev pub Continues : Call → Machine K (Client A) → Type 0
  Continues c s =
      (t : Machine K (Client A)) × (run_call K c (some a) s ≡ some t) × Session IsValid t

  run_call-Session : (c : Call) (s : Machine K (Client A)) → Session IsValid s → Continues c s
  unfolding run_call start stop pump notify
  run_call-Session start_call s v = (
    after s owner_impl (K.start h),
    ap final (owned_operations L v.own (pos 0) []).0,
    after-Session IsValid handle_response-IsValid (K.start h) s (L.start_keeps h) v,
  )
  run_call-Session (stop_call n) s v = (
    after s owner_impl (K.stop h (to_int n)),
    ap final (owned_operations L v.own n []).1,
    after-Session IsValid handle_response-IsValid _ s (L.stop_keeps h (to_int n)) v,
  )
  run_call-Session (pump_call n) s v = (
    after s owner_impl (K.step h (to_int n)),
    ap final (owned_operations L v.own n []).3,
    after-Session IsValid handle_response-IsValid _ s (L.step_keeps h (to_int n)) v,
  )
  run_call-Session (notify_call m) s v = (
    after s owner_impl (K.ingest h m),
    ap final (owned_operations L v.own (pos 0) m).2,
    after-Session IsValid handle_response-IsValid _ s (L.ingest_keeps h m) v,
  )
  run_call-Session (request_call m now timeout) s v =
      let (st, e, x) = v.holds in
      let (t, eq, _, own, (st', e', x', _, _, _)) = request_async_lem L o v.own e x m now timeout in
      (t, ap final eq, record { own = own; holds = (st', e', x') })
  run_call-Session (timeouts_call now) s v =
      let (t, eq, w) =
        section-Session IsValid IsValid now s
          (λ st x. let (st', eq, _, _, _, x') = check_timeouts_lem now st x in (st', eq, x')) v in
      (t, ap final eq, w)

  -- Any sequence of calls on an AsyncBus that owns an instance runs to its end, whatever the kernel
  -- calls back: no promise is set twice, the requests stay valid, and the Bus keeps its instance.
  pub run_calls-Session :
      (cs : List Call) (s : Machine K (Client A))
      → Session IsValid s
      → (t : Machine K (Client A)) × (run_calls K cs (some a) s ≡ some t) × Session IsValid t
  unfolding run_calls
  run_calls-Session [] s v = (s, refl, v)
  run_calls-Session (c ∷ cs) s v =
      let (t, eq, w) = run_call-Session c s v in rw (eq, run_calls) (run_calls-Session cs t w)
