-- ===== src/Async/Client/Requests.antt =====
-- AsyncBus::request_async on a Bus that has an instance.
use stdiobus_cpp.Prelude.{
  ℕ, ◌≡◌, refl, ap, sym, subst, ◌∙◌, true, some, some-injective, inl, ◌⊎◌, Bytes, ==_refl,
}
use stdiobus_cpp.Prelude.Int.{ℤ, ◌+ℤ◌}
use stdiobus_cpp.Error.{is_error, from_c}
use stdiobus_cpp.Embed.Kernel.{Kernel, Contract}
use stdiobus_cpp.Types.{Options}
use stdiobus_cpp.Bus.Machine.{Impl, Machine}
use stdiobus_cpp.Bus.Delivery.{after}
use stdiobus_cpp.Bus.Behaviour.{Owns, owned_operations, owned_after}
use stdiobus_cpp.Async.Id.{extract_or_inject_id}
use stdiobus_cpp.Async.Pending.{AsyncState, waiting}
use stdiobus_cpp.Async.Table.{lookup}
use stdiobus_cpp.Async.Pending.Invariant.{IsValid}
use stdiobus_cpp.Async.Pending.History
use stdiobus_cpp.Async.Pending.Spec
use stdiobus_cpp.Async.Pending.Spec.{Futures}
use stdiobus_cpp.Async.Pending.View.{view}
use stdiobus_cpp.Async.Client.{Client, request_async}
use stdiobus_cpp.Async.Client.Hooked.{hooked, Holds}
use stdiobus_cpp.Async.Client.Sending.{sending, registered, request, request_async-eq}
use stdiobus_cpp.Async.Client.Events.{
  Shows, apply-Shows, exchange, responses, refusals, run-append, deliver-Shows,
  resolve_failed-Shows,
}
use stdiobus_cpp.Async.Client.Fate.{
  Fate, IsAnswered, responses-Fate, refusals-Fate, HasAnswer, IsAnswered-HasAnswer, Fate-HasAnswer,
}

-- The future that a request makes, after the exchange.
pub exchange-Fate :
    (K : Kernel) (h : ℕ) (w : K.World) (message : Bytes) (deadline : ℤ) (v : Futures)
    → let x = extract_or_inject_id message v.next_id in
      let err = from_c (K.ingest h x.json w).result in
      Fate x.id err deadline ((Spec.run (exchange K h w v.next_id message deadline) v).at v.made)
      × (is_error err ≡ true
          → IsAnswered x.id err
              ((Spec.run (exchange K h w v.next_id message deadline) v).at v.made))
unfolding exchange Spec.run Spec.apply
exchange-Fate K h w message deadline v =
    let x = extract_or_inject_id message v.next_id in
    let reply = K.ingest h x.json w in
    let err = from_c reply.result in
    let asked = Spec.apply (History.request message deadline) v in
    rw (exchange, run-append (responses reply.callbacks) (refusals x.id err) asked)
      (refusals-Fate x.id err deadline (Spec.run (responses reply.callbacks) asked) v.made (
        responses-Fate x.id err reply.callbacks deadline asked v.made
          (inl (rw (==_refl v.made) refl))))

registered-Shows :
    (message : Bytes) (deadline : ℤ) (v : Futures) (st : AsyncState)
    → Shows v st
    → Shows (Spec.apply (History.request message deadline) v) (registered message deadline st)
unfolding History.apply
registered-Shows message deadline v st shows =
    let (st', eq, shows') = apply-Shows (History.request message deadline) v st shows in
    subst (Shows (Spec.apply (History.request message deadline) v))
      (some-injective st' (registered message deadline st) (sym eq)) shows'

module _ {K : Kernel} {A : Type 0} (L : Contract K) where
  pub request_async-Shows :
      (o : Options A) {s : Machine K (Client A)} {a h : ℕ} {st : AsyncState} (v : Futures)
      → Owns L s a h (record { handle = some h; options = hooked o })
      → s.user.requests ≡ some st
      → Shows v st
      → (message : Bytes) (now timeout : ℤ)
      → let x = extract_or_inject_id message st.next_id in
        (t : Machine K (Client A)) × (request_async K (some a) message now timeout s
          ≡ some (st.next_promise, t))
        × (t.world ≡ (K.ingest h x.json s.world).world)
        × Owns L t a h (record { handle = some h; options = hooked o })
        × Holds
            (Shows (Spec.run (exchange K h s.world st.next_id message (now +ℤ timeout)) v))
            t.user
  unfolding exchange Spec.run History.apply
  request_async-Shows o {s} {a} {h} {st} v own e shows message now timeout =
      let x = extract_or_inject_id message st.next_id in
      let deadline = now +ℤ timeout in
      let reply = K.ingest h x.json s.world in
      let impl : Impl (Client A) = record { handle = some h; options = hooked o } in
      let s1 : Machine K (Client A) = sending message deadline st s in
      let own1 : Owns L s1 a h impl = record {
        stored = own.stored;
        handle = refl;
        context = own.context;
      } in
      let s2 : Machine K (Client A) = after s1 impl (K.ingest h x.json) in
      let own2 = owned_after L own1 (K.ingest h x.json) (L.ingest_keeps h x.json) in
      let asked = Spec.apply (History.request message deadline) v in
      let k1 : Holds (Shows asked) s1.user =
        (registered message deadline st, refl, registered-Shows message deadline v st shows) in
      let k2 = deliver-Shows reply.callbacks o (some h) asked s1.user k1 in
      let (t, done, heap, world, k3) =
        resolve_failed-Shows x.id (from_c reply.result) (Spec.run (responses reply.callbacks) asked)
          s2 k2 in
      (
        t,
        request_async-eq (some a) s s2 t st message now timeout _ e
            (owned_operations L own1 timeout x.json).2 done,
        world,
        record {
          stored = ap (λ heap. heap a) heap ∙ own2.stored;
          handle = refl;
          context = ap (λ w. L.context w h) world ∙ own2.context;
        },
        subst (λ w. Holds (Shows w) t.user)
            (sym
              (run-append (responses reply.callbacks) (refusals x.id (from_c reply.result)) asked))
            k3,
      )

  -- A request on a Bus with an instance always returns, whatever the kernel calls back while it
  -- takes the message. The message goes to the kernel with its id, and no promise is set twice. All
  -- futures are then what the specification gives for the request, the responses that the kernel
  -- passed on meanwhile, and the refusal if it refused the message. The request's own future waits,
  -- with its entry under its id and the deadline now + timeout, or has a response with its id, or
  -- the error of the send; and it does not wait if the kernel refused the message.
  pub request_async_lem :
      (o : Options A) {s : Machine K (Client A)} {a h : ℕ} {st : AsyncState}
      → Owns L s a h (record { handle = some h; options = hooked o })
      → s.user.requests ≡ some st
      → IsValid st
      → (message : Bytes) (now timeout : ℤ)
      → let x = extract_or_inject_id message st.next_id in
        let sent = K.ingest h x.json s.world in
        (t : Machine K (Client A)) × (request_async K (some a) message now timeout s
          ≡ some (st.next_promise, t))
        × (t.world ≡ sent.world)
        × Owns L t a h (record { handle = some h; options = hooked o })
        × ((st' : AsyncState) × (t.user.requests ≡ some st')
            × IsValid st'
            × (view st'
                ≡ Spec.run (exchange K h s.world st.next_id message (now +ℤ timeout)) (view st))
            × (((st'.promises st.next_promise ≡ waiting)
                  × (lookup x.id st'.pending ≡ some (request (now +ℤ timeout) st)))
                ⊎ HasAnswer x.id (from_c sent.result) st.next_promise st')
            × (is_error (from_c sent.result) ≡ true
                → HasAnswer x.id (from_c sent.result) st.next_promise st'))
  request_async_lem o {s} {a} {h} {st} own e v message now timeout =
      let x = extract_or_inject_id message st.next_id in
      let err = from_c (K.ingest h x.json s.world).result in
      let p = st.next_promise in
      let (t, eq, world, own', (st', e', (v', same))) =
        request_async-Shows o (view st) own e (v, refl) message now timeout in
      let (fate, failed) = exchange-Fate K h s.world message (now +ℤ timeout) (view st) in
      (
        t,
        eq,
        world,
        own',
        (
          st',
          e',
          v',
          same,
          Fate-HasAnswer x.id err (now +ℤ timeout) p st' v' same fate,
          λ f. IsAnswered-HasAnswer x.id err p st' same (failed f),
        ),
      )
