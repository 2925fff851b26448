-- ===== src/Async/Client/RoundTrip.antt =====
-- A request and the pump that brings its response.
use stdiobus_cpp.Prelude.{ℕ, ◌≡◌, refl, some, Bytes, subst, sym}
use stdiobus_cpp.Prelude.Int.{ℤ, ◌+ℤ◌, to_int}
use stdiobus_cpp.Error.{from_c}
use stdiobus_cpp.Embed.Kernel.{Kernel, Contract}
use stdiobus_cpp.Types.{Options}
use stdiobus_cpp.Bus.Machine.{Machine}
use stdiobus_cpp.Bus.Behaviour.{Owns}
use stdiobus_cpp.Async.Id.{extract_or_inject_id}
use stdiobus_cpp.Async.Id.Inject.{extract_or_inject_id_nonempty}
use stdiobus_cpp.Async.Pending.{AsyncState}
use stdiobus_cpp.Async.Pending.Invariant.{IsValid}
use stdiobus_cpp.Async.Pending.Spec
use stdiobus_cpp.Async.Pending.View.{view}
use stdiobus_cpp.Async.Client.{Client, request_async, pump}
use stdiobus_cpp.Async.Client.Hooked.{hooked}
use stdiobus_cpp.Async.Client.Events.{exchange}
use stdiobus_cpp.Async.Client.Fate.{Delivers, HasAnswer, responses-own, IsAnswered-HasAnswer}
use stdiobus_cpp.Async.Client.Requests.{exchange-Fate, request_async-Shows}
use stdiobus_cpp.Async.Client.Pump.{pump-Shows}

module _ {K : Kernel} {A : Type 0} (L : Contract K) where
  -- A request followed by a pump during which the kernel passes on a message with the request's id:
  -- both calls return, and the future that request_async gave has a result afterwards, which is a
  -- message with the request's id or, if the kernel refused the request, the error of the send.
  pub request_async-pump :
      (o : Options A) {s : Machine K (Client A)} {a h : ℕ} {st : AsyncState} (message : Bytes)
      (now timeout wait : ℤ)
      → Owns L s a h (record { handle = some h; options = hooked o })
      → s.user.requests ≡ some st
      → IsValid st
      → let x = extract_or_inject_id message st.next_id in
        let sent = K.ingest h x.json s.world in
        Delivers x.id (K.step h (to_int wait) sent.world).callbacks
        → (t : Machine K (Client A)) × (u : Machine K (Client A)) × (request_async K
              (some a)
              message
              now
              timeout
              s
            ≡ some (st.next_promise, t))
          × (pump K (some a) wait t ≡ some ((K.step h (to_int wait) t.world).result, u))
          × ((st' : AsyncState) × (u.user.requests ≡ some st')
              × HasAnswer x.id (from_c sent.result) st.next_promise st')
  request_async-pump o {s} {a} {h} {st} message now timeout wait own e v delivers =
      let x = extract_or_inject_id message st.next_id in
      let err = from_c (K.ingest h x.json s.world).result in
      let futures = Spec.run (exchange K h s.world st.next_id message (now +ℤ timeout)) (view st) in
      let (t, sent, world, own', k) =
        request_async-Shows L o (view st) own e (v, refl) message now timeout in
      let (u, pumped, _, _, (st2, e2, (_, same))) = pump-Shows L o futures wait own' k in
      let arrives =
        subst (λ w. Delivers x.id (K.step h (to_int wait) w).callbacks) (sym world) delivers in
      (
        t,
        u,
        sent,
        pumped,
        (
          st2,
          e2,
          IsAnswered-HasAnswer x.id err st.next_promise st2 same (
              responses-own x.id err (K.step h (to_int wait) t.world).callbacks (now +ℤ timeout)
                futures st.next_promise (extract_or_inject_id_nonempty message st.next_id) arrives
                (exchange-Fate K h s.world message (now +ℤ timeout) (view st)).0),
        ),
      )
