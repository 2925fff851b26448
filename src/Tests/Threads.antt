-- ===== src/Tests/Threads.antt =====
-- Two threads that send a request with the id 7 each, and one that sends a request with no id.
use stdiobus_cpp.Prelude.{
  ◌⊎◌, ℕ, ◌≡◌, ◌<◌, ◌≤◌, ◌^◌, refl, some, Bytes, codes, arith, length, true, false, is_empty,
}
use stdiobus_cpp.Prelude.Int.{pos, ◌+ℤ◌}
use stdiobus_cpp.ErrorCode.{full}
use stdiobus_cpp.Error.{of_code, is_error}
use stdiobus_cpp.Async.Id.{extract_id, extract_or_inject_id}
use stdiobus_cpp.Async.Table.{PendingRequest, lookup}
use stdiobus_cpp.Async.Pending.{AsyncState, ready, register}
use stdiobus_cpp.Async.Pending
use stdiobus_cpp.Async.Pending.Invariant.{IsValid, is_waiting}
use stdiobus_cpp.Async.Pending.View.{view}
use stdiobus_cpp.Async.Threads.{
  Pc, idle, failed, send_error, Move, identify, enter, send_fails, System, pick, Reach, start,
  later,
}
use stdiobus_cpp.Async.Threads.Invariant.{
  steps_left, threads_move, failed_resolved, result_kept, none_yet, more,
}
use stdiobus_cpp.Async.Threads.Acts.{acts, performs, Reach-acts}
use stdiobus_cpp.Async.Threads.Ids.{injected, AreDistinct, injected-AreDistinct}
use stdiobus_cpp.Async.Threads.Duplicate.{refused_settles_other}

abbrev message : Bytes
message = codes "{\"id\":7}"

record Run : Type 0 where
  last : System
  reach : Reach last

abbrev calm : Run
calm = record { last = _; reach = start }

abbrev first_sends : Run
first_sends = record {
  last = _;
  reach = later (later start (pick 0 (identify message (pos 5)))) (pick 0 (enter (pos 100)));
}

abbrev both_send : Run
both_send = record {
  last = _;
  reach =
      later (later first_sends.reach (pick 1 (identify message (pos 5))))
        (pick 1 (enter (pos 101)));
}

full_error : is_error (of_code full) ≡ true
unfolding is_error
full_error = refl

-- The send of thread 0 is refused when thread 1 has registered its request.
abbrev one_refused : Run
one_refused = record {
  last = _;
  reach = later both_send.reach (pick 0 (send_fails (of_code full) full_error));
}

abbrev id : Bytes
id = (extract_or_inject_id message 1).id

abbrev r0 : PendingRequest
r0 = record { promise = 0; deadline = pos 100 +ℤ pos 5 }

abbrev r1 : PendingRequest
r1 = record { promise = 1; deadline = pos 101 +ℤ pos 5 }

second_found : lookup id one_refused.last.requests.pending ≡ some r1
unfolding lookup register extract_or_inject_id extract_id is_empty
second_found = refl

resolving :
    (t : AsyncState) × Move one_refused.last.requests (one_refused.last.pc 0) t (failed r0)
    × (t.promises 1 ≡ ready (send_error (of_code full)))
    × (t.promises 0 ≡ one_refused.last.requests.promises 0)
unfolding register
resolving =
    refused_settles_other 0 id (of_code full) r0 r1 one_refused.reach refl second_found
      (omega arith)

refused_settles_other_example :
    (t : AsyncState) × Move one_refused.last.requests (one_refused.last.pc 0) t (failed r0)
    × (t.promises 1 ≡ ready (send_error (of_code full)))
    × (t.promises 0 ≡ one_refused.last.requests.promises 0)
unfolding register
refused_settles_other_example =
    refused_settles_other 0 id (of_code full) r0 r1 one_refused.reach refl second_found
      (omega arith)

threads_move_example :
    IsValid one_refused.last.requests
    × ((i : ℕ)
        → ((t : AsyncState) × (q : Pc) × Move one_refused.last.requests (one_refused.last.pc i) t q)
          × ((t : AsyncState) (q : Pc)
              → Move one_refused.last.requests (one_refused.last.pc i) t q
              → (one_refused.last.pc i ≡ idle)
                ⊎ (steps_left q < steps_left (one_refused.last.pc i)))
          × (steps_left (one_refused.last.pc i) ≤ 4))
threads_move_example = threads_move one_refused.reach

Reach-acts_example :
    view one_refused.last.requests ≡ performs (acts one_refused.reach) (view Pending.start)
Reach-acts_example = Reach-acts one_refused.reach

-- Thread 0 has settled the request of its id.
abbrev settled_state : AsyncState
settled_state = resolving.0

abbrev one_failed : Run
one_failed = record {
  last = record { requests = settled_state; pc = _ };
  reach = later one_refused.reach (pick 0 resolving.1);
}

failed_resolved_example : is_waiting (settled_state.promises 0) ≡ false
failed_resolved_example = failed_resolved 0 r0 one_failed.reach refl

-- The first request is broken by the second, and stays so.
first_broken : is_waiting (both_send.last.requests.promises 0) ≡ false
unfolding register lookup extract_or_inject_id extract_id is_empty Pending.abandon_old
    Pending.abandon
first_broken = refl

result_kept_example :
    (0 < one_refused.last.requests.next_promise)
    × (one_refused.last.requests.promises 0 ≡ both_send.last.requests.promises 0)
unfolding register
result_kept_example =
    result_kept 0 both_send.reach (more none_yet (pick 0 (send_fails (of_code full) full_error)))
      (omega arith) first_broken

-- Two threads inject an id.
abbrev injecting : Run
injecting = record {
  last = _;
  reach =
      later (later start (pick 0 (identify (codes "{}") (pos 5))))
        (pick 1 (identify (codes "{}") (pos 5)));
}

few_injected : length (injected injecting.reach) ≤ 2 ^ 64
unfolding extract_id is_empty
few_injected = omega arith

injected-AreDistinct_example : AreDistinct (injected injecting.reach)
injected-AreDistinct_example = injected-AreDistinct injecting.reach few_injected
