-- ===== src/Async/Pending/Duplicate.antt =====
-- Two requests in flight with one id, in request_async of AsyncBus.
use stdiobus_cpp.Prelude.{suc, ◌<◌, ◌≡◌, refl, some, List, Bytes, arith, ◌∙◌}
use stdiobus_cpp.Prelude.Int.{ℤ}
use stdiobus_cpp.Async.Table.{PendingRequest, lookup}
use stdiobus_cpp.Async.Table.Laws.{holders-pos_of_lookup}
use stdiobus_cpp.Async.Pending.{AsyncState, broken, register, abandon_old}
use stdiobus_cpp.Async.Pending.Invariant.{IsValid, register-IsValid}
use stdiobus_cpp.Async.Pending.History.{Event, run, run-IsValid}

register_over :
    (id : Bytes) (deadline : ℤ) (s : AsyncState) (old : PendingRequest)
    → IsValid s
    → lookup id s.pending ≡ some old
    → (old.promise < suc s.next_promise) × ((register id deadline s).promises old.promise ≡ broken)
unfolding register abandon_old
register_over id deadline s old v e =
    ground (arith, v.held old.promise, holders-pos_of_lookup id s.pending old e)

-- A request with the id of a pending one breaks the older future, and whatever happens afterwards,
-- that future never gets a result: no response, no error and no timeout.
pub register_breaks_older :
    (id : Bytes) (deadline : ℤ) (s : AsyncState) (old : PendingRequest) (es : List Event)
    → IsValid s
    → lookup id s.pending ≡ some old
    → (s' : AsyncState) × (run es (register id deadline s) ≡ some s')
      × (s'.promises old.promise ≡ broken)
unfolding register
register_breaks_older id deadline s old es v e =
    let (made, lost) = register_over id deadline s old v e in
    let (s', eq, _, keep) =
      run-IsValid es (register id deadline s) (register-IsValid id deadline v) in
    (s', eq, (keep old.promise made (rw lost refl)).1 ∙ lost)
