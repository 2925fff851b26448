-- ===== src/Async/Client/Closed.antt =====
-- request_async on a Bus that has no instance.

use stdiobus_cpp.Prelude.{
  ◌≡◌, refl, ◌∙◌, sym, subst, some-injective, ==_refl, none, some, [], Bytes,
}
use stdiobus_cpp.Prelude.Int.{ℤ, ◌+ℤ◌}
use stdiobus_cpp.Embed.Kernel.{Kernel}
use stdiobus_cpp.Bus.Machine.{Bus, Machine}
use stdiobus_cpp.Bus.Calls.{not_initialized}
use stdiobus_cpp.Bus.Behaviour.{no_instance, IsClosed}
use stdiobus_cpp.Async.Id.{extract_or_inject_id}
use stdiobus_cpp.Async.Table.{PendingRequest, lookup}
use stdiobus_cpp.Async.Pending.{AsyncResult, AsyncState, ready, register, settle}
use stdiobus_cpp.Async.Pending.Invariant.{IsValid, settled, settle-eq, settle-IsValid}
use stdiobus_cpp.Async.Table.Laws.{lookup-put, lookup-erase, bytes_eq_refl}
use stdiobus_cpp.Async.Client.{Client, resolve_failed, request_async}
use stdiobus_cpp.Async.Client.Sending.{
  registered, request, registered-IsValid, with_requests, section-eq, sending, request_async-eq,
}

module _ {K : Kernel} {A : Type 0} where
  still-IsClosed :
      (bus : Bus) (s : Machine K (Client A)) (st : AsyncState)
      → IsClosed bus s
      → IsClosed bus (with_requests st s)
  still-IsClosed none s st c = tt
  still-IsClosed (some a) s st c = c

  -- On a Bus with no instance the future of a request is at once ready with the error of the send,
  -- the id is free again, and the kernel is not called.
  pub request_async-no_instance :
      (bus : Bus) (s : Machine K (Client A)) (st : AsyncState) (message : Bytes) (now timeout : ℤ)
      → IsClosed bus s
      → s.user.requests ≡ some st
      → IsValid st
      → (t : Machine K (Client A)) × (request_async K bus message now timeout s
          ≡ some (st.next_promise, t))
        × (t.world ≡ s.world)
        × ((st' : AsyncState) × (t.user.requests ≡ some st')
            × IsValid st'
            × (st'.promises st.next_promise
                ≡ ready (record { error = not_initialized; response = [] }))
            × (lookup (extract_or_inject_id message st.next_id).id st'.pending ≡ none))
  unfolding resolve_failed register
  request_async-no_instance bus s st message now timeout closed e v =
      let x = extract_or_inject_id message st.next_id in
      let deadline = now +ℤ timeout in
      let s1 : Machine K (Client A) = sending message deadline st s in
      let v1 = registered-IsValid message deadline st v in
      let sent =
        (no_instance K bus s1 timeout x.json
          (still-IsClosed bus s (registered message deadline st) closed)).3 in
      let result : AsyncResult = record { error = not_initialized; response = [] } in
      let r : PendingRequest = request deadline st in
      let st1 : AsyncState = registered message deadline st in
      let found : lookup x.id st1.pending ≡ some r =
        rw (lookup-put x.id x.id r st.pending, bytes_eq_refl x.id) refl in
      let done : settle x.id result st1 ≡ some (settled x.id result st1 r) =
        settle-eq x.id result st1 r v1 found in
      let (st', eq, v') = settle-IsValid x.id result st1 v1 in
      (
        with_requests (settled x.id result st1 r) s,
        request_async-eq bus s s1 _ st message now timeout not_initialized e sent
            (section-eq (settle x.id result) s1 st1 _ refl done),
        refl,
        (
          settled x.id result st1 r,
          refl,
          subst IsValid (some-injective st' (settled x.id result st1 r) (sym eq ∙ done)) v',
          rw (==_refl st.next_promise) refl,
          rw (lookup-erase x.id x.id st1.pending v1.distinct, bytes_eq_refl x.id) refl,
        ),
      )
