-- ===== src/Examples/Async/Ends/Ready.antt =====
-- What the count of the futures that are ready says of their results.
use stdiobus_cpp.Prelude.{ℕ, ◌<◌, ◌≡◌, ◌≢◌, refl, false, List, [], ◌∷◌, All, length, arith, ◌≤◌}
use stdiobus_cpp.Async.Pending.{AsyncResult, Shared, waiting, ready, broken}
use stdiobus_cpp.Async.Pending.Invariant.{is_waiting}
use stdiobus_cpp.Examples.Async.{count_ready}

pub count_ready-le :
    (promises : ℕ → Shared) (futures : List ℕ) → count_ready promises futures ≤ length futures
unfolding count_ready
count_ready-le promises [] = omega arith
count_ready-le promises (f ∷ fs) = ground (arith, count_ready-le promises fs)

pub count_ready_total :
    (promises : ℕ → Shared) (futures : List ℕ)
    → All (λ f. is_waiting (promises f) ≡ false) futures
    → count_ready promises futures ≡ length futures
unfolding count_ready
count_ready_total promises [] h = refl
count_ready_total promises (f ∷ fs) h =
    let x = h.0 in ground (arith, x, count_ready_total promises fs h.1)

abbrev pub IsReady : Shared → Type 0
IsReady x = (r : AsyncResult) × (x ≡ ready r)

results_split :
    (promises : ℕ → Shared) (f : ℕ) (fs : List ℕ)
    → All (λ f. promises f ≢ broken) (f ∷ fs)
    → count_ready promises (f ∷ fs) ≡ length (f ∷ fs)
    → (x : Shared) → promises f ≡ x
    → IsReady (promises f) × (count_ready promises fs ≡ length fs)
unfolding count_ready
results_split promises f fs u h waiting e = ground (arith, e, count_ready-le promises fs)
results_split promises f fs u h (ready r) e = ((r, e), ground (arith, e))
results_split promises f fs u h broken e = absurd (u.0 e)

-- So many are ready only if all are; and then they have results, if none is broken.
pub results-IsReady :
    (promises : ℕ → Shared) (futures : List ℕ)
    → All (λ f. promises f ≢ broken) futures
    → count_ready promises futures ≡ length futures
    → All (λ f. IsReady (promises f)) futures
unfolding count_ready
results-IsReady promises [] u h = tt
results-IsReady promises (f ∷ fs) u h =
    let (r, rest) = results_split promises f fs u h (promises f) refl in
    (r, results-IsReady promises fs u.1 rest)

pub All-below :
    (n : ℕ) (F : ℕ → Type 0) (futures : List ℕ)
    → ((f : ℕ) → f < n → F f)
    → All (λ f. f < n) futures
    → All F futures
All-below n F [] g h = tt
All-below n F (f ∷ fs) g h = (g f h.0, All-below n F fs g h.1)
