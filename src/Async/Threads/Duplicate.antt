-- ===== src/Async/Threads/Duplicate.antt =====
-- Two threads with one id.
use stdiobus_cpp.Prelude.{ℕ, ◌≡◌, ◌≢◌, refl, subst, sym, some, Bytes, arith, ==_refl}
use stdiobus_cpp.Error.{Error}
use stdiobus_cpp.Async.Table.{PendingRequest, lookup}
use stdiobus_cpp.Async.Pending.{AsyncState, ready}
use stdiobus_cpp.Async.Pending.Invariant.{settled, settle-eq}
use stdiobus_cpp.Async.Threads.{refused, failed, send_error, Move, resolve, System, Reach}
use stdiobus_cpp.Async.Threads.Invariant.{Reach-IsSound}

-- A thread whose send failed settles the request that is then pending under its id. Where another
-- thread has registered a request with the same id in between, that thread's future gets the error,
-- whose own send need not have failed, and the first thread's future keeps what it has.
pub refused_settles_other :
    {s : System} (i : ℕ) (id : Bytes) (err : Error) (r other : PendingRequest)
    → Reach s
    → s.pc i ≡ refused id err r
    → lookup id s.requests.pending ≡ some other
    → r.promise ≢ other.promise
    → (t : AsyncState) × Move s.requests (s.pc i) t (failed r)
      × (t.promises other.promise ≡ ready (send_error err))
      × (t.promises r.promise ≡ s.requests.promises r.promise)
refused_settles_other {s} i id err r other reach at found differ =
    let t = settled id (send_error err) s.requests other in
    (
      t,
      subst (λ p. Move s.requests p t (failed r)) (sym at)
          (resolve
            (settle-eq id (send_error err) s.requests other (Reach-IsSound reach).valid found)),
      rw (==_refl other.promise) refl,
      ground (arith, differ),
    )
