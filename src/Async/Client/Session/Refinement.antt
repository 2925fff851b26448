-- ===== src/Async/Client/Session/Refinement.antt =====
-- A sequence of calls on one AsyncBus against the specification of its futures.
use stdiobus_cpp.Prelude.{
  ℕ, ◌≡◌, refl, sym, ap, ◌∙◌, some, List, [], ◌∷◌, Bytes, subst, is_empty, Bool-cases, inl, inr,
}
use stdiobus_cpp.Prelude.Int.{pos, ◌+ℤ◌, to_int}
use stdiobus_cpp.Error.{Error, is_error, from_c}
use stdiobus_cpp.Embed.Kernel.{
  Kernel, Contract, Reply, Keeps, Callback, message, error, log, worker, client_connect,
  client_disconnect,
}
use stdiobus_cpp.Embed.Kernel
use stdiobus_cpp.Types.{Options}
use stdiobus_cpp.Bus.Machine.{Machine}
use stdiobus_cpp.Bus.Delivery.{after}
use stdiobus_cpp.Bus.Behaviour.{Owns, owned_operations, owned_after}
use stdiobus_cpp.Bus.Program.{final}
use stdiobus_cpp.Async.Id.{extract_id, extract_or_inject_id}
use stdiobus_cpp.Async.Pending.{AsyncState}
use stdiobus_cpp.Async.Pending
use stdiobus_cpp.Async.Pending.Invariant.{IsValid}
use stdiobus_cpp.Async.Pending.History
use stdiobus_cpp.Async.Pending.History.{Event, request, refused, response, tick}
use stdiobus_cpp.Async.Pending.Spec
use stdiobus_cpp.Async.Pending.Spec.{Futures}
use stdiobus_cpp.Async.Pending.View.{view}
use stdiobus_cpp.Async.Client.{Client, start, stop, pump, notify, request_async, check_timeouts}
use stdiobus_cpp.Async.Client.Sending.{section-eq, with_requests}
use stdiobus_cpp.Async.Client.Events.{
  Shows, apply-Shows, responses_of, responses, refusals, exchange, run-append, deliver-Shows,
}
use stdiobus_cpp.Async.Client.Requests.{request_async-Shows}
use stdiobus_cpp.Async.Client.Session.{
  Call, start_call, stop_call, pump_call, notify_call, request_call, timeouts_call, run_call,
  run_calls, Session, owner_impl,
}
use stdiobus_cpp.Async.Client.Session.Trace.{events_of, world_after, counter_after, trace}

event-next_id : (e : Kernel.Event) (v : Futures) → (Spec.run (responses_of e) v).next_id ≡ v.next_id
unfolding responses_of Spec.run Spec.apply
event-next_id (message msg) v = elim (Bool-cases (is_empty (extract_id msg))) [
  | inl e ↦ rw (e, Spec.apply) refl
  | inr e ↦ rw (e, Spec.apply) refl
]
event-next_id (error code msg) v = refl
event-next_id (log level msg) v = refl
event-next_id (worker n msg) v = refl
event-next_id (client_connect n msg) v = refl
event-next_id (client_disconnect n msg) v = refl

-- Only a request takes a number.
responses-next_id :
    (cs : List Callback) (v : Futures) → (Spec.run (responses cs) v).next_id ≡ v.next_id
unfolding responses Spec.run
responses-next_id [] v = refl
responses-next_id (c ∷ cs) v =
    ap (λ w. w.next_id) (run-append (responses_of c.event) (responses cs) v)
    ∙ responses-next_id cs (Spec.run (responses_of c.event) v)
    ∙ event-next_id c.event v

refusals-next_id :
    (id : Bytes) (err : Error) (v : Futures) → (Spec.run (refusals id err) v).next_id ≡ v.next_id
unfolding refusals Spec.run Spec.apply
refusals-next_id id err v = elim (Bool-cases (is_error err)) [
  | inl e ↦ rw (e, refusals) refl
  | inr e ↦ rw (e, refusals) refl
]

-- The counter of the specification after the events of a call.
events_of-next_id :
    (K : Kernel) (h : ℕ) (c : Call) (w : K.World) (v : Futures)
    → (Spec.run (events_of K h c w v.next_id) v).next_id ≡ counter_after K h c v.next_id
unfolding events_of counter_after exchange Spec.run Spec.apply
events_of-next_id K h start_call w v = responses-next_id (K.start h w).callbacks v
events_of-next_id K h (stop_call n) w v = responses-next_id (K.stop h (to_int n) w).callbacks v
events_of-next_id K h (pump_call n) w v = responses-next_id (K.step h (to_int n) w).callbacks v
events_of-next_id K h (notify_call m) w v = responses-next_id (K.ingest h m w).callbacks v
events_of-next_id K h (request_call m now timeout) w v =
    let x = extract_or_inject_id m v.next_id in
    let reply = K.ingest h x.json w in
    let asked = Spec.apply (History.request m (now +ℤ timeout)) v in
    ap (λ u. u.next_id)
      (run-append (responses reply.callbacks) (refusals x.id (from_c reply.result)) asked)
    ∙ refusals-next_id x.id (from_c reply.result) (Spec.run (responses reply.callbacks) asked)
    ∙ responses-next_id reply.callbacks asked
events_of-next_id K h (timeouts_call now) w v = refl

module _ {K : Kernel} {A : Type 0} (L : Contract K) (o : Options A) (a h : ℕ) where
  -- A call runs to its end, and does to the kernel, the counter and the futures what the trace says.
  abbrev Follows : Futures → Call → Machine K (Client A) → Type 0
  Follows v c s =
      (t : Machine K (Client A)) × (run_call K c (some a) s ≡ some t)
      × (t.world ≡ world_after K h c s.world v.next_id)
      × Session L o a h (Shows (Spec.run (events_of K h c s.world v.next_id) v)) t

  after-Follows :
      {B : Type 0} (v : Futures) (f : K.World → Reply K.World B) (s : Machine K (Client A))
      → Keeps K L.context h B f
      → Session L o a h (Shows v) s
      → Session L o a h
          (Shows (Spec.run (responses (f s.world).callbacks) v))
          (after s (owner_impl L o a h) f)
  after-Follows v f s k x = record {
    own = owned_after L x.own f k;
    holds = deliver-Shows (f s.world).callbacks o (some h) v s.user x.holds;
  }

  run_call-Follows :
      (c : Call) (v : Futures) (s : Machine K (Client A))
      → Session L o a h (Shows v) s
      → Follows v c s
  unfolding run_call events_of world_after start stop pump notify request_async check_timeouts
      History.apply Spec.run
  run_call-Follows start_call v s x = (
    after s (owner_impl L o a h) (K.start h),
    ap final (owned_operations L x.own (pos 0) []).0,
    refl,
    after-Follows v (K.start h) s (L.start_keeps h) x,
  )
  run_call-Follows (stop_call n) v s x = (
    after s (owner_impl L o a h) (K.stop h (to_int n)),
    ap final (owned_operations L x.own n []).1,
    refl,
    after-Follows v (K.stop h (to_int n)) s (L.stop_keeps h (to_int n)) x,
  )
  run_call-Follows (pump_call n) v s x = (
    after s (owner_impl L o a h) (K.step h (to_int n)),
    ap final (owned_operations L x.own n []).3,
    refl,
    after-Follows v (K.step h (to_int n)) s (L.step_keeps h (to_int n)) x,
  )
  run_call-Follows (notify_call m) v s x = (
    after s (owner_impl L o a h) (K.ingest h m),
    ap final (owned_operations L x.own (pos 0) m).2,
    refl,
    after-Follows v (K.ingest h m) s (L.ingest_keeps h m) x,
  )
  run_call-Follows (request_call m now timeout) v s x =
      let (st, e, shows) = x.holds in
      let (t, eq, world, own, holds) = request_async-Shows L o v x.own e shows m now timeout in
      subst
        (λ n.
          (u : Machine K (Client A)) × (run_call K (request_call m now timeout) (some a) s ≡ some u)
          × (u.world ≡ world_after K h (request_call m now timeout) s.world n)
          × Session L o a h
              (Shows (Spec.run (events_of K h (request_call m now timeout) s.world n) v)) u)
        (ap (λ w. w.next_id) shows.1) (t, ap final eq, world, record { own = own; holds = holds })
  run_call-Follows (timeouts_call now) v s x =
      let (st, e, shows) = x.holds in
      let (st', eq, shows') = apply-Shows (tick now) v st shows in
      (
        with_requests st' s,
        ap final (section-eq (Pending.check_timeouts now) s st st' e eq),
        refl,
        record {
          own = record { stored = x.own.stored; handle = refl; context = x.own.context };
          holds = (st', refl, shows');
        },
      )

  run_calls-Follows :
      (cs : List Call) (v : Futures) (s : Machine K (Client A))
      → Session L o a h (Shows v) s
      → (t : Machine K (Client A)) × (run_calls K cs (some a) s ≡ some t)
        × Session L o a h (Shows (Spec.run (trace K h cs s.world v.next_id) v)) t
  unfolding run_calls trace Spec.run
  run_calls-Follows [] v s x = (s, refl, x)
  run_calls-Follows (c ∷ cs) v s x =
      let es = events_of K h c s.world v.next_id in
      let u = Spec.run es v in
      let (t, eq, world, y) = run_call-Follows c v s x in
      let (z, done, end) = run_calls-Follows cs u t y in
      (
        z,
        rw (eq, run_calls) done,
        subst (λ w. Session L o a h (Shows w) z)
            (ap (λ w. Spec.run (trace K h cs w u.next_id) u) world
              ∙ ap (λ n. Spec.run (trace K h cs (world_after K h c s.world v.next_id) n) u)
                  (events_of-next_id K h c s.world v)
              ∙ sym (
                  run-append es
                    (trace K h cs (world_after K h c s.world v.next_id)
                      (counter_after K h c v.next_id))
                    v))
            end,
      )

module _ {K : Kernel} {A : Type 0} (L : Contract K) where
  -- Any sequence of calls on an AsyncBus that owns an instance runs to its end, and its futures are
  -- then what the specification gives for the trace of the sequence: for each call, in order, every
  -- response that the kernel passes on during it, and for a request first the request itself, under
  -- its own or the next free number, and last the refusal if the kernel refused the message, and for
  -- the timeouts the sweep at their reading of the clock.
  pub run_calls-Refines :
      (o : Options A) {s : Machine K (Client A)} {a h : ℕ} {st : AsyncState} (cs : List Call)
      → Owns L s a h (owner_impl L o a h)
      → s.user.requests ≡ some st
      → IsValid st
      → (t : Machine K (Client A)) × (st' : AsyncState) × (run_calls K cs (some a) s ≡ some t)
        × (t.user.requests ≡ some st')
        × (view st' ≡ Spec.run (trace K h cs s.world st.next_id) (view st))
  run_calls-Refines o {s} {a} {h} {st} cs own e valid =
      let (t, eq, end) =
        run_calls-Follows L o a h cs (view st) s
          (record { own = own; holds = (st, e, (valid, refl)) }) in
      let (st', e', shows) = end.holds in (t, st', eq, e', shows.1)
