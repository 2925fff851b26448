-- ===== src/Async/Client/Sending.antt =====
-- What request_async does up to its return, as equations on the machine.
use mathlib.Core.Option
use stdiobus_cpp.Prelude.{◌≡◌, refl, Option, some, Bytes}
use stdiobus_cpp.Prelude.Int.{ℤ, ◌+ℤ◌}
use stdiobus_cpp.Error.{Error}
use stdiobus_cpp.Embed.Kernel.{Kernel}
use stdiobus_cpp.Bus.Machine.{Bus, Machine, ◌>>=◌, ◌>>◌}
use stdiobus_cpp.Bus.Calls
use stdiobus_cpp.Bus.Calls.{not_initialized}
use stdiobus_cpp.Async.Id.{extract_or_inject_id}
use stdiobus_cpp.Async.Table.{PendingRequest}
use stdiobus_cpp.Async.Pending.{AsyncState, register}
use stdiobus_cpp.Async.Pending.Invariant.{IsValid, register-IsValid}
use stdiobus_cpp.Async.Client.{Client, section, read_requests, resolve_failed, request_async}

-- The state of the requests when request_async sends.
abbrev pub registered : Bytes → ℤ → AsyncState → AsyncState
registered message deadline st =
    let x = extract_or_inject_id message st.next_id in
    register x.id deadline (record st { next_id = x.next_id })

-- The request that is registered.
abbrev pub request : ℤ → AsyncState → PendingRequest
request deadline st = record { promise = st.next_promise; deadline = deadline }

pub registered-IsValid :
    (message : Bytes) (deadline : ℤ) (st : AsyncState)
    → IsValid st
    → IsValid (registered message deadline st)
registered-IsValid message deadline st v =
    let x = extract_or_inject_id message st.next_id in
    let w : IsValid (record st { next_id = x.next_id }) = record {
      distinct = v.distinct;
      held = v.held;
    } in
    register-IsValid x.id deadline w

module _ {K : Kernel} {A : Type 0} where
  abbrev pub with_requests : AsyncState → Machine K (Client A) → Machine K (Client A)
  with_requests st s = record s { user = record (s.user) { requests = some st } }

  pub section-eq :
      (f : AsyncState → Option AsyncState) (s : Machine K (Client A)) (st st' : AsyncState)
      → s.user.requests ≡ some st
      → f st ≡ some st'
      → section K f s ≡ some (tt, with_requests st' s)
  unfolding section
  section-eq f s st st' e g = rw (e, section, g) refl

  -- The machine when request_async sends.
  abbrev pub sending : Bytes → ℤ → AsyncState → Machine K (Client A) → Machine K (Client A)
  sending message deadline st s = with_requests (registered message deadline st) s

  pub request_async-eq :
      (bus : Bus) (s s' t : Machine K (Client A)) (st : AsyncState) (message : Bytes)
      (now timeout : ℤ) (err : Error)
      → let id = (extract_or_inject_id message st.next_id).id in
        s.user.requests ≡ some st
        → Calls.send K bus
            (extract_or_inject_id message st.next_id).json
            (sending message (now +ℤ timeout) st s)
          ≡ some (err, s')
        → resolve_failed K id err s' ≡ some (tt, t)
        → request_async K bus message now timeout s ≡ some (st.next_promise, t)
  unfolding request_async section read_requests
  request_async-eq bus s s' t st message now timeout err e sent done =
      let x = extract_or_inject_id message st.next_id in
      let enter =
        section-eq (λ r. some (register x.id (now +ℤ timeout) (record r { next_id = x.next_id }))) s
          st (registered message (now +ℤ timeout) st) e refl in
      rw (e, request_async, ◌>>=◌, read_requests, Option.map, ◌>>◌, enter, sent, done) refl
