-- ===== src/Async/Pending/Spec.antt =====
-- What AsyncBus promises of its futures, without the table: each future is open under an id until a
-- deadline, has a result, or is lost. Every event acts on each future by itself.
use stdiobus_cpp.Prelude.{ℕ, suc, List, [], ◌∷◌, Bytes, bytes_eq, is_empty, ◌==◌, if◌then◌else◌}
use stdiobus_cpp.Prelude.Int.{ℤ, leb_ℤ}
use stdiobus_cpp.Error
use stdiobus_cpp.Async.Id.{extract_id, extract_or_inject_id}
use stdiobus_cpp.Async.Pending.{AsyncResult, timed_out}
use stdiobus_cpp.Async.Pending.History.{Event, request, refused, response, tick}

pub data Future : Type 0 where
  unmade : Future
  open_under : Bytes → ℤ → Future
  done : AsyncResult → Future
  lost : Future

pub record Futures : Type 0 where
  pub at : ℕ → Future
  pub made : ℕ
  pub next_id : ℕ

-- A result for the future that is open under the id.
abbrev pub answer : Bytes → AsyncResult → Future → Future
answer id result (open_under key deadline) =
    if bytes_eq id key then done result else open_under key deadline
answer id result f = f

-- A new request takes the id away from an older one.
abbrev pub displace : Bytes → Future → Future
displace id (open_under key deadline) = if bytes_eq id key then lost else open_under key deadline
displace id f = f

abbrev pub expire : ℤ → Future → Future
expire now (open_under key deadline) =
    if leb_ℤ deadline now then done timed_out else open_under key deadline
expire now f = f

-- request_async makes the next future, under its id.
abbrev pub ask : Bytes → ℤ → Futures → Futures
ask id deadline v = record v {
  at = λ p. if v.made == p then open_under id deadline else displace id (v.at p);
  made = suc v.made;
}

abbrev pub each : (Future → Future) → Futures → Futures
each f v = record v { at = λ p. f (v.at p) }

unfoldable pub apply : Event → Futures → Futures
unfolding extract_or_inject_id extract_id is_empty
apply (request json deadline) v =
    let x = extract_or_inject_id json v.next_id in
    ask x.id deadline (record v { next_id = x.next_id })
apply (refused id result) v = each (answer id result) v
apply (response msg) v =
    if is_empty (extract_id msg)
    then v
    else each (answer (extract_id msg) (record { error = Error.ok; response = msg })) v
apply (tick now) v = each (expire now) v

unfoldable pub run : List Event → Futures → Futures
unfolding apply
run [] v = v
run (e ∷ es) v = run es (apply e v)
