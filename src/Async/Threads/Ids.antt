-- ===== src/Async/Threads/Ids.antt =====
-- The ids that threads inject.
use stdiobus_cpp.Prelude.{
  ℕ, zero, suc, ◌+◌, ◌<◌, ◌≤◌, ◌%◌, ◌^◌, ◌≡◌, ◌≢◌, refl, sym, ap, subst, ◌∙◌, some, some-injective,
  List, [], ◌∷◌, ◌++◌, Bytes, All, length, arith, is_empty, if◌then◌else◌, Bool-cases, inl, inr,
}
use stdiobus_cpp.Async.Id.{extract_id, extract_or_inject_id}
use stdiobus_cpp.Async.Id.Decimal.{to_string}
use stdiobus_cpp.Async.Id.Decimal.Digits.{to_string_ne}
use stdiobus_cpp.Async.Pending.{AsyncState, AsyncResult, register, settle, handle_response}
use stdiobus_cpp.Async.Pending.Refinement.{check_timeouts-next_id}
use stdiobus_cpp.Async.Threads.{
  Pc, send_error, Move, identify, enter, send_succeeds, send_fails, resolve, leave, leave_failed,
  read_clock, sweep, receive, respond, System, pick, Reach, start, later,
}

-- The id that a step injects into a message, if the message has none.
abbrev pub injected_by : {s t : AsyncState} {p q : Pc} → Move s p t q → List Bytes
injected_by {s} (identify message timeout) =
    if is_empty (extract_id message) then (extract_or_inject_id message s.next_id).id ∷ [] else []
injected_by _ = []

-- The last id first.
abbrev pub injected : {s : System} → Reach s → List Bytes
injected start = []
injected (later r (pick i move)) = injected_by move ++ injected r

abbrev pub AreDistinct : List Bytes → Type 0
AreDistinct [] = Unit {0}
AreDistinct (x ∷ xs) = All (λ y. x ≢ y) xs × AreDistinct xs

-- The ids of the counter's first n values.
counted : ℕ → List Bytes
counted zero = []
counted (suc n) = to_string ((1 + n) % 2 ^ 64) ∷ counted n

counted-All_ne :
    (n m : ℕ) → n ≤ m → m < 2 ^ 64 → All (λ y. to_string ((1 + m) % 2 ^ 64) ≢ y) (counted n)
unfolding counted
counted-All_ne zero m h small = tt
counted-All_ne (suc n) m h small =
    (to_string_ne _ _ (omega arith), counted-All_ne n m (omega arith) small)

counted-AreDistinct : (n : ℕ) → n ≤ 2 ^ 64 → AreDistinct (counted n)
unfolding counted
counted-AreDistinct zero h = tt
counted-AreDistinct (suc n) h =
    (counted-All_ne n n (omega arith) (omega arith), counted-AreDistinct n (omega arith))

length-counted : (n : ℕ) → length (counted n) ≡ n
unfolding counted
length-counted zero = refl
length-counted (suc n) = ap suc (length-counted n)

settle-next_id :
    (id : Bytes) (result : AsyncResult) (s t : AsyncState)
    → settle id result s ≡ some t
    → t.next_id ≡ s.next_id
unfolding settle
settle-next_id id result s t e = ground (arith, e)

handle_response-next_id :
    (msg : Bytes) (s t : AsyncState) → handle_response msg s ≡ some t → t.next_id ≡ s.next_id
unfolding handle_response
handle_response-next_id msg s t e = elim (Bool-cases (is_empty (extract_id msg))) [
  | inl f ↦ ap (λ x. x.next_id) (sym (some-injective s t (rw (f, handle_response) at e)))
  | inr f ↦ settle-next_id (extract_id msg) _ s t (rw (f, handle_response) at e)
]

-- So many ids have been injected, and the counter stands behind them.
abbrev Counts : List Bytes → AsyncState → Type 0
Counts ids s = (n : ℕ) × (ids ≡ counted n) × (s.next_id ≡ (1 + n) % 2 ^ 64)

Move-Counts :
    {s t : AsyncState} {p q : Pc} (move : Move s p t q) (ids : List Bytes)
    → Counts ids s
    → Counts (injected_by move ++ ids) t
unfolding counted extract_or_inject_id register
Move-Counts {s} (identify message timeout) ids (n, same, next) =
    elim (Bool-cases (is_empty (extract_id message))) [
      | inl e ↦
          rw (e, extract_or_inject_id)
            (
              suc n,
              ap (λ k. to_string k ∷ ids) next ∙ ap (◌∷◌ (to_string ((1 + n) % 2 ^ 64))) same,
              omega (arith, next),
            )
      | inr e ↦ rw (e, extract_or_inject_id) (n, same, next)
    ]
Move-Counts (enter now) ids h = h
Move-Counts (send_succeeds err e) ids h = h
Move-Counts (send_fails err e) ids h = h
Move-Counts {s} {t} (resolve {id} {err} e) ids (n, same, next) =
    (n, same, settle-next_id id (send_error err) s t e ∙ next)
Move-Counts leave ids h = h
Move-Counts leave_failed ids h = h
Move-Counts (read_clock now) ids h = h
Move-Counts {s} {t} (sweep {now} e) ids (n, same, next) =
    (n, same, check_timeouts-next_id now s t e ∙ next)
Move-Counts (receive msg) ids h = h
Move-Counts {s} {t} (respond {msg} e) ids (n, same, next) =
    (n, same, handle_response-next_id msg s t e ∙ next)

Reach-Counts : {s : System} (r : Reach s) → Counts (injected r) s.requests
unfolding counted
Reach-Counts start = (0, refl, refl)
Reach-Counts (later r (pick i move)) = Move-Counts move (injected r) (Reach-Counts r)

-- The ids that threads inject are all different, in any interleaving of up to 2 ^ 64 injections.
pub injected-AreDistinct :
    {s : System} (r : Reach s) → length (injected r) ≤ 2 ^ 64 → AreDistinct (injected r)
injected-AreDistinct r h =
    let (n, same, _) = Reach-Counts r in
    subst AreDistinct (sym same)
      (counted-AreDistinct n (omega (arith, h, length-counted n, ap length same)))
