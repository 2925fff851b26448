-- ===== src/Async/Client/Fate.antt =====
-- What becomes of one future of the specification while responses and refusals come in.
use stdiobus_cpp.Prelude.{
  ℕ, ◌≡◌, refl, ap, ◌∙◌, ◌⊎◌, inl, inr, true, false, some, List, [], ◌∷◌, Bytes, is_empty, bytes_eq,
  arith, Bool-cases, subst, sym,
}
use stdiobus_cpp.Prelude.Int.{ℤ}
use stdiobus_cpp.Error
use stdiobus_cpp.Error.{Error, is_error}
use stdiobus_cpp.Embed.Kernel.{
  Callback, message, error, log, worker, client_connect, client_disconnect,
}
use stdiobus_cpp.Embed.Kernel
use stdiobus_cpp.Async.Id.{extract_id}
use stdiobus_cpp.Async.Table.Laws.{bytes_eq_iff, bytes_eq_refl}
use stdiobus_cpp.Async.Pending.{AsyncResult, AsyncState, waiting, ready}
use stdiobus_cpp.Async.Table.{lookup}
use stdiobus_cpp.Async.Pending.Invariant.{IsValid}
use stdiobus_cpp.Async.Pending.Owner.{owner-cases, owner-lookup}
use stdiobus_cpp.Async.Pending.Spec
use stdiobus_cpp.Async.Pending.Spec.{Future, open_under, done, Futures, answer}
use stdiobus_cpp.Async.Pending.View.{view}
use stdiobus_cpp.Async.Pending.History.{Event, response, refused}
use stdiobus_cpp.Async.Client.Events.{responses_of, responses, refusals, run-append}

-- AsyncResult{Error::ok(), msg}
abbrev pub response_result : Bytes → AsyncResult
response_result msg = record { error = Error.ok; response = msg }

-- AsyncResult{err, ""}
abbrev pub error_result : Error → AsyncResult
error_result err = record { error = err; response = [] }

-- The result of a request with the id: a message with the id, or the error of the send.
abbrev pub Answers : Bytes → Error → AsyncResult → Type 0
Answers id err result =
    ((msg : Bytes) × (extract_id msg ≡ id) × (result ≡ response_result msg))
    ⊎ ((is_error err ≡ true) × (result ≡ error_result err))

-- One of the callbacks passes on a message with the id.
abbrev pub Delivers : Bytes → List Callback → Type 0
Delivers id [] = ⊥
Delivers id (c ∷ cs) =
    ((msg : Bytes) × (c.event ≡ message msg) × (extract_id msg ≡ id)) ⊎ Delivers id cs

module _ (id : Bytes) (err : Error) where
  -- The future has its result.
  abbrev pub IsAnswered : Future → Type 0
  IsAnswered f = (result : AsyncResult) × (f ≡ done result) × Answers id err result

  -- The future is open under the id, or has its result.
  abbrev pub Fate : ℤ → Future → Type 0
  Fate deadline f = (f ≡ open_under id deadline) ⊎ IsAnswered f

  answer-IsAnswered :
      (key : Bytes) (result : AsyncResult) (f : Future)
      → IsAnswered f
      → IsAnswered (answer key result f)
  answer-IsAnswered key result f (r, e, q) = (r, rw e refl, q)

  answer-Fate :
      (key : Bytes) (result : AsyncResult) (deadline : ℤ) (f : Future)
      → (key ≡ id → Answers id err result)
      → Fate deadline f
      → Fate deadline (answer key result f)
  answer-Fate key result deadline f can (inr d) = inr (answer-IsAnswered key result f d)
  answer-Fate key result deadline f can (inl e) = elim (Bool-cases (bytes_eq key id)) [
    | inl b ↦ inr (result, rw (e, b) refl, can ((bytes_eq_iff key id).0 b))
    | inr b ↦ inl (rw (e, b) refl)
  ]

  answer-own :
      (result : AsyncResult) (deadline : ℤ) (f : Future)
      → Answers id err result
      → Fate deadline f
      → IsAnswered (answer id result f)
  answer-own result deadline f can (inr d) = answer-IsAnswered id result f d
  answer-own result deadline f can (inl e) = (result, rw (e, bytes_eq_refl id) refl, can)

  response-IsAnswered :
      (msg : Bytes) (v : Futures) (p : ℕ)
      → IsAnswered (v.at p)
      → IsAnswered ((Spec.apply (response msg) v).at p)
  unfolding Spec.apply
  response-IsAnswered msg v p f = elim (Bool-cases (is_empty (extract_id msg))) [
    | inl e ↦ rw (e, Spec.apply) f
    | inr e ↦
        rw (e, Spec.apply) (answer-IsAnswered (extract_id msg) (response_result msg) (v.at p) f)
  ]

  response-Fate :
      (msg : Bytes) (deadline : ℤ) (v : Futures) (p : ℕ)
      → Fate deadline (v.at p)
      → Fate deadline ((Spec.apply (response msg) v).at p)
  unfolding Spec.apply
  response-Fate msg deadline v p f = elim (Bool-cases (is_empty (extract_id msg))) [
    | inl e ↦ rw (e, Spec.apply) f
    | inr e ↦
        rw (e, Spec.apply)
          (answer-Fate (extract_id msg) (response_result msg) deadline (v.at p)
            (λ same. inl (msg, same, refl)) f)
  ]

  response-own :
      (msg : Bytes) (deadline : ℤ) (v : Futures) (p : ℕ)
      → extract_id msg ≡ id
      → is_empty id ≡ false
      → Fate deadline (v.at p)
      → IsAnswered ((Spec.apply (response msg) v).at p)
  unfolding Spec.apply
  response-own msg deadline v p same ne f =
      rw (Spec.apply, same, ne)
        (answer-own (response_result msg) deadline (v.at p) (inl (msg, same, refl)) f)

  event-IsAnswered :
      (e : Kernel.Event) (v : Futures) (p : ℕ)
      → IsAnswered (v.at p)
      → IsAnswered ((Spec.run (responses_of e) v).at p)
  unfolding responses_of Spec.run
  event-IsAnswered (message msg) v p f = response-IsAnswered msg v p f
  event-IsAnswered (error code msg) v p f = f
  event-IsAnswered (log level msg) v p f = f
  event-IsAnswered (worker n msg) v p f = f
  event-IsAnswered (client_connect n msg) v p f = f
  event-IsAnswered (client_disconnect n msg) v p f = f

  event-Fate :
      (e : Kernel.Event) (deadline : ℤ) (v : Futures) (p : ℕ)
      → Fate deadline (v.at p)
      → Fate deadline ((Spec.run (responses_of e) v).at p)
  unfolding responses_of Spec.run
  event-Fate (message msg) deadline v p f = response-Fate msg deadline v p f
  event-Fate (error code msg) deadline v p f = f
  event-Fate (log level msg) deadline v p f = f
  event-Fate (worker n msg) deadline v p f = f
  event-Fate (client_connect n msg) deadline v p f = f
  event-Fate (client_disconnect n msg) deadline v p f = f

  pub responses-IsAnswered :
      (cs : List Callback) (v : Futures) (p : ℕ)
      → IsAnswered (v.at p)
      → IsAnswered ((Spec.run (responses cs) v).at p)
  unfolding responses Spec.run
  responses-IsAnswered [] v p f = f
  responses-IsAnswered (c ∷ cs) v p f =
      rw (responses, run-append (responses_of c.event) (responses cs) v)
        (responses-IsAnswered cs (Spec.run (responses_of c.event) v) p
          (event-IsAnswered c.event v p f))

  pub responses-Fate :
      (cs : List Callback) (deadline : ℤ) (v : Futures) (p : ℕ)
      → Fate deadline (v.at p)
      → Fate deadline ((Spec.run (responses cs) v).at p)
  unfolding responses Spec.run
  responses-Fate [] deadline v p f = f
  responses-Fate (c ∷ cs) deadline v p f =
      rw (responses, run-append (responses_of c.event) (responses cs) v)
        (responses-Fate cs deadline (Spec.run (responses_of c.event) v) p
          (event-Fate c.event deadline v p f))

  -- A response with the id answers the future that is open under it.
  pub responses-own :
      (cs : List Callback) (deadline : ℤ) (v : Futures) (p : ℕ)
      → is_empty id ≡ false
      → Delivers id cs
      → Fate deadline (v.at p)
      → IsAnswered ((Spec.run (responses cs) v).at p)
  unfolding responses responses_of Spec.run
  responses-own [] deadline v p ne found f = absurd found
  responses-own (c ∷ cs) deadline v p ne (inl (msg, e, same)) f =
      rw (responses, run-append (responses_of c.event) (responses cs) v)
        (responses-IsAnswered cs (Spec.run (responses_of c.event) v) p (
          subst (λ x. IsAnswered ((Spec.run (responses_of x) v).at p)) (sym e)
            (response-own msg deadline v p same ne f)))
  responses-own (c ∷ cs) deadline v p ne (inr found) f =
      rw (responses, run-append (responses_of c.event) (responses cs) v)
        (responses-own cs deadline (Spec.run (responses_of c.event) v) p ne found
          (event-Fate c.event deadline v p f))

  pub refusals-Fate :
      (deadline : ℤ) (v : Futures) (p : ℕ)
      → Fate deadline (v.at p)
      → Fate deadline ((Spec.run (refusals id err) v).at p)
        × (is_error err ≡ true → IsAnswered ((Spec.run (refusals id err) v).at p))
  unfolding refusals Spec.run Spec.apply
  refusals-Fate deadline v p f = elim (Bool-cases (is_error err)) [
    | inl e ↦
        let d = answer-own (error_result err) deadline (v.at p) (inr (e, refl)) f in
        subst (λ es. Ended es) (sym (refused_once e)) (inr d, λ _. d)
    | inr e ↦ subst (λ es. Ended es) (sym (not_refused e)) (f, λ x. cc (e, x))
  ]
    where
      Ended : List Event → Type 0
      Ended es =
          Fate deadline ((Spec.run es v).at p)
          × (is_error err ≡ true → IsAnswered ((Spec.run es v).at p))

      refused_once : is_error err ≡ true → refusals id err ≡ refused id (error_result err) ∷ []
      refused_once e = rw (refusals, e) refl

      not_refused : is_error err ≡ false → refusals id err ≡ []
      not_refused e = rw (refusals, e) refl

-- A future that has its result is a promise that has it.
pub done-ready :
    (st : AsyncState) (p : ℕ) (result : AsyncResult)
    → (view st).at p ≡ done result
    → st.promises p ≡ ready result
done-ready st p result e = elim (owner-cases p st.pending) [
  | inl f ↦ ground (arith, f, e)
  | inr (key, d, f) ↦ ground (arith, f, e)
]

-- A future that is open is a promise that waits, with its entry in the table.
pub open-pending :
    (st : AsyncState) (p : ℕ) (id : Bytes) (deadline : ℤ)
    → IsValid st
    → (view st).at p ≡ open_under id deadline
    → (st.promises p ≡ waiting)
      × (lookup id st.pending ≡ some (record { promise = p; deadline = deadline }))
open-pending st p id deadline v e = elim (owner-cases p st.pending) [
  | inl f ↦ ground (arith, f, e)
  | inr (key, d, f) ↦ ground (arith, f, e, owner-lookup p key d st.pending v.distinct f)
]

-- The promise is set to a result of the request.
abbrev pub HasAnswer : Bytes → Error → ℕ → AsyncState → Type 0
HasAnswer id err p st =
    (result : AsyncResult) × (st.promises p ≡ ready result) × Answers id err result

pub IsAnswered-HasAnswer :
    (id : Bytes) (err : Error) (p : ℕ) (st : AsyncState) {v : Futures}
    → view st ≡ v
    → IsAnswered id err (v.at p)
    → HasAnswer id err p st
IsAnswered-HasAnswer id err p st same (result, e, q) =
    (result, done-ready st p result (ap (λ w. w.at p) same ∙ e), q)

pub Fate-HasAnswer :
    (id : Bytes) (err : Error) (deadline : ℤ) (p : ℕ) (st : AsyncState) {v : Futures}
    → IsValid st
    → view st ≡ v
    → Fate id err deadline (v.at p)
    → ((st.promises p ≡ waiting)
        × (lookup id st.pending ≡ some (record { promise = p; deadline = deadline })))
      ⊎ HasAnswer id err p st
Fate-HasAnswer id err deadline p st valid same (inl e) =
    inl (open-pending st p id deadline valid (ap (λ w. w.at p) same ∙ e))
Fate-HasAnswer id err deadline p st valid same (inr d) =
    inr (IsAnswered-HasAnswer id err p st same d)
