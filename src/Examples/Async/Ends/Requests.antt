-- ===== src/Examples/Async/Ends/Requests.antt =====
-- async.cpp behind a successful start: the requests, the pump loop and the results.
use stdiobus_cpp.Prelude.{
  ℕ, zero, suc, ◌<◌, ◌+◌, ◌≡◌, refl, ap, subst, ◌∙◌, Bool, true, false, some, List, [], ◌∷◌, codes,
  All, length, arith, ltb, if◌then◌else◌, Bool-cases, inl, inr,
}
use stdiobus_cpp.Prelude.Int.{ℤ, pos, leb_ℤ, ◌+ℤ◌}
use stdiobus_cpp.Embed.Kernel.{Kernel, Contract}
use stdiobus_cpp.Types.{Options}
use stdiobus_cpp.Async.Id.Decimal.{to_string}
use stdiobus_cpp.Async.Id.Decimal.Digits.{to_string-ne-nil}
use stdiobus_cpp.Async.Id.Inject.{extract_or_inject_id_kept, is_empty_ne}
use stdiobus_cpp.Async.Pending.{AsyncState, Shared, ready, register}
use stdiobus_cpp.Async.Pending.Invariant.{is_waiting}
use stdiobus_cpp.Async.Client.Hooked.{Stays}
use stdiobus_cpp.Async.Client.Sending.{registered}
use stdiobus_cpp.Async.Client.Runs.{
  Runs, Runs-pure, Runs-bind, Runs-then, Runs-if, Runs-app, Runs-read, Runs-fact, Runs-given,
  Runs-weaken, Session-weaken,
}
use stdiobus_cpp.Async.Client.Runs.Calls.{
  Runs-pump, Runs-stop, Runs-check_timeouts, Runs-request_async, Settles-Stays,
}
use stdiobus_cpp.Examples.Console.{Console, Line, out, add_line}
use stdiobus_cpp.Examples.Async.{
  request_text, ten_seconds, count_ready, result_line, print_line, send_requests, pump_until_ready,
  get, print_results, finish,
}
use stdiobus_cpp.Examples.Async.Sent.{Sent, register-Sent, settle-Sent, check_timeouts-Sent}
use stdiobus_cpp.Examples.Async.Ends.Ready.{
  IsReady, count_ready-le, count_ready_total, results-IsReady, All-below,
}
use stdiobus_cpp.Examples.Async.Sent.Text.{extract_id-request_text}

-- A round of the loop reads the clock at `bound` or later.
unfoldable pub is_over : ℤ → List ℤ → Bool
is_over bound [] = false
is_over bound (now ∷ clock) = if leb_ℤ bound now then true else is_over bound clock

still_over :
    (bound now : ℤ) (clock : List ℤ)
    → (leb_ℤ bound now ≡ true → ⊥)
    → is_over bound (now ∷ clock) ≡ true
    → is_over bound clock ≡ true
unfolding is_over
still_over bound now clock early over = elim (Bool-cases (leb_ℤ bound now)) [
  | inl e ↦ absurd (early e)
  | inr e ↦ subst (λ b. (if b then true else is_over bound clock) ≡ true) e over
]

all_counted :
    (promises : ℕ → Shared) (fs : List ℕ)
    → length fs ≡ 5
    → ltb (count_ready promises fs) 5 ≡ false
    → count_ready promises fs ≡ length fs
all_counted promises fs five e = ground (arith, count_ready-le promises fs)

-- The id of a request is its number.
registered-request_text :
    (i : ℕ) (deadline : ℤ) (st : AsyncState)
    → registered (request_text i) deadline st ≡ register (to_string i) deadline st
registered-request_text i deadline st =
    let kept =
      extract_or_inject_id_kept (request_text i) st.next_id
        (rw (extract_id-request_text i) (is_empty_ne (to_string i) (to_string-ne-nil i))) in
    rw (kept, extract_id-request_text i) refl

module _ {K : Kernel} (L : Contract K) (o : Options Console) (a h : ℕ) (bound : ℤ) where
  pub Runs-print_line :
      (P : AsyncState → Type 0) (line : Line) → Runs L o a h P (λ _. P) (print_line K line)
  unfolding print_line
  Runs-print_line P line = Runs-app L o a h P (add_line line)

  pub send_requests-Runs :
      (time : ℕ → ℤ)
      → ((i : ℕ) → leb_ℤ (time i +ℤ ten_seconds) bound ≡ true)
      → (left n : ℕ)
      → Runs L o a h
          (Sent bound n)
          (λ fs st. Sent bound (n + left) st × ((length fs ≡ left) × All (λ f. f < n + left) fs))
          (send_requests K (some a) time (suc n) left)
  unfolding send_requests
  send_requests-Runs time due zero n =
      Runs-pure L o a h [] (λ st v. (subst (λ k. Sent bound k st) (omega arith) v, (refl, tt)))
  send_requests-Runs time due (suc left) n =
      Runs-bind L o a h (λ f st. Sent bound (suc n) st × (f ≡ n))
        (Runs-request_async L o a h (Sent bound n) (λ f st. Sent bound (suc n) st × (f ≡ n))
          (request_text (suc n)) (time (suc n)) ten_seconds
          (λ st v. (
            rw (registered-request_text (suc n) (time (suc n) +ℤ ten_seconds) st)
                (register-Sent bound n _ st (due (suc n)) v),
            v.made,
          ))
          (λ f id result st x.
            let (st', e, v) = settle-Sent bound (suc n) id result st x.0 in (st', e, (v, x.1))))
        (λ f. Runs-fact L o a h (λ first.
          Runs-bind L o a h _ (send_requests-Runs time due left (suc n)) (λ fs.
            Runs-pure L o a h (f ∷ fs) (λ st x.
              let up : suc n + left ≡ n + suc left = omega arith in
              (
                subst (λ k. Sent bound k st) up x.0,
                (ap suc x.1.0, (omega (arith, first), subst (λ k. All (λ g. g < k) fs) up x.1.1)),
              )))))

  -- A future with a result gives it.
  get-Runs :
      (P : AsyncState → Type 0) (f : ℕ)
      → ((st : AsyncState) → P st → IsReady (st.promises f))
      → Runs L o a h P (λ _. P) (get K f)
  unfolding get
  get-Runs P f g = Runs-bind L o a h _ (Runs-read L o a h P) (λ requests s v.
      let (st, e, (q, x)) = v.holds in
      let (r, eq) = g st x in
      let there : requests.promises f ≡ ready r = ap (λ z. z.promises f) q ∙ eq in
      (r, s, rw there refl, Session-weaken L o a h (λ z y. y.1) v, λ j. refl))

  print_results-Runs :
      (P : AsyncState → Type 0) (i : ℕ) (fs : List ℕ)
      → ((st : AsyncState) → P st → All (λ f. IsReady (st.promises f)) fs)
      → Runs L o a h P (λ _. P) (print_results K i fs)
  unfolding print_results
  print_results-Runs P i [] g = Runs-pure L o a h tt (λ st x. x)
  print_results-Runs P i (f ∷ fs) g =
      Runs-bind L o a h (λ _. P) (get-Runs P f (λ st x. (g st x).0))
        (λ result.
          Runs-then L o a h P (Runs-print_line P (result_line i result))
            (print_results-Runs P (suc i) fs (λ st x. (g st x).1)))

  -- The five futures of the requests, when they have their results.
  abbrev pub Done : List ℕ → AsyncState → Type 0
  Done fs st = Sent bound 5 st × All (λ f. IsReady (st.promises f)) fs

  stays : Stays (Sent bound 5)
  stays = Settles-Stays (Sent bound 5) (settle-Sent bound 5)

  pub finish-Runs :
      (fs : List ℕ)
      → Runs L o a h (Done fs) (λ code st. Sent bound 5 st × (code ≡ some 0)) (finish K (some a) fs)
  unfolding finish
  finish-Runs fs =
      Runs-then L o a h (Done fs) (Runs-print_line (Done fs) (out (codes "\nResults:"))) (
        Runs-then L o a h (Done fs) (print_results-Runs (Done fs) 1 fs (λ st x. x.1)) (
          Runs-weaken L o a h (λ st x. x.0) (λ b st x. x)
            (Runs-bind L o a h (λ _. Sent bound 5) (Runs-stop L o a h (Sent bound 5) stays (pos 5))
              (λ stopped.
                Runs-then L o a h (Sent bound 5)
                  (Runs-print_line (Sent bound 5) (out (codes "\nDone")))
                  (Runs-pure L o a h (some 0) (λ st x. (x, refl)))))))

  -- The futures after a sweep at `now`.
  abbrev Swept : ℤ → AsyncState → Type 0
  Swept now st =
      Sent bound 5 st
      × (leb_ℤ bound now ≡ true → (p : ℕ) → p < 5 → is_waiting (st.promises p) ≡ false)

  -- What the loop ends with: when it has ended, every future has its result.
  abbrev pub Looped : List ℕ → List ℤ → Bool → AsyncState → Type 0
  Looped fs clock ended st =
      Sent bound 5 st
      × (ended ≡ true → All (λ f. IsReady (st.promises f)) fs)
      × (is_over bound clock ≡ true → ended ≡ true)

  pub pump_until_ready-Runs :
      (fs : List ℕ)
      → length fs ≡ 5
      → All (λ f. f < 5) fs
      → (clock : List ℤ)
      → Runs L o a h (Sent bound 5) (Looped fs clock) (pump_until_ready K (some a) fs clock)
  unfolding pump_until_ready is_over
  pump_until_ready-Runs fs five below [] =
      Runs-pure L o a h false (λ st v. (v, (λ e. cc (e)), λ e. e))
  pump_until_ready-Runs fs five below (now ∷ clock) =
      Runs-bind L o a h (λ _. Sent bound 5) (Runs-pump L o a h (Sent bound 5) stays (pos 10))
        (λ events.
          Runs-then L o a h (Swept now)
            (Runs-check_timeouts L o a h (Sent bound 5) (Swept now) now (λ st v.
              let (st', e, w, done) = check_timeouts-Sent bound 5 now st v in (st', e, (w, done))))
            (Runs-bind L o a h _ (Runs-read L o a h (Swept now)) (λ requests.
              Runs-given L o a h (leb_ℤ bound now ≡ true → count_ready requests.promises fs ≡ 5)
                (λ st x late.
                  ap (λ z. count_ready z.promises fs) x.0
                  ∙ count_ready_total st.promises fs (All-below 5 _ fs (x.1.1 late) below)
                  ∙ five)
                (λ late_ready.
                  Runs-if L o a h (ltb (count_ready requests.promises fs) 5)
                    (λ more.
                      Runs-weaken L o a h (λ st x. x.1.0)
                        (λ ended st x. (
                          x.0,
                          x.1,
                          λ over. x.2 (
                              still_over bound now clock
                                (λ late. ground (arith, more, late_ready late)) over),
                        ))
                        (pump_until_ready-Runs fs five below clock))
                    (λ enough. Runs-pure L o a h true (λ st x. (
                      x.1.0,
                      (λ _. results-IsReady st.promises fs (All-below 5 _ fs x.1.0.unbroken below) (
                          all_counted st.promises fs five
                            (subst (λ z. ltb (count_ready z.promises fs) 5 ≡ false) x.0 enough))),
                      λ _. refl,
                    )))))))
