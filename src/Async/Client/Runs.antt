-- ===== src/Async/Client/Runs.antt =====
-- Code on one AsyncBus whose Bus has an instance: it gives a result and leaves the requests with a
-- property.
pub mod Calls
use stdiobus_cpp.Prelude.{
  ℕ, ◌≡◌, refl, ◌∙◌, Bool, true, false, Option, some, [], Bytes, if◌then◌else◌, is_empty,
  Bool-cases, inl, inr,
}
use stdiobus_cpp.Prelude.Int.{ℤ, pos, ◌+ℤ◌, to_int}
use stdiobus_cpp.Embed.Kernel.{Kernel, Contract}
use stdiobus_cpp.Types.{Options}
use stdiobus_cpp.Bus.Machine.{Machine, M, ◌>>=◌, ◌>>◌, pure}
use stdiobus_cpp.Bus.Delivery.{after}
use stdiobus_cpp.Bus.Behaviour.{owned_operations}
use stdiobus_cpp.Error
use stdiobus_cpp.Error.{Error, is_error}
use stdiobus_cpp.Async.Id.{extract_id, extract_or_inject_id}
use stdiobus_cpp.Async.Pending.{AsyncState, AsyncResult, settle, handle_response}
use stdiobus_cpp.Async.Pending
use stdiobus_cpp.Async.Client.{
  Client, on_app, start, stop, pump, check_timeouts, read_requests, section, resolve_failed,
  request_async,
}
use stdiobus_cpp.Async.Client.Hooked.{Stays}
use stdiobus_cpp.Async.Client.Sending.{
  section-eq, with_requests, registered, sending, request_async-eq,
}
use stdiobus_cpp.Async.Client.Session.{owner_impl, Session, after-Session}

module _ {K : Kernel} {A : Type 0} (L : Contract K) (o : Options A) (a h : ℕ) where
  -- From requests with P the code gives a result r and requests with Q r, and the kernel has the
  -- same instances.
  abbrev pub Runs :
      {B : Type 0} → (AsyncState → Type 0) → (B → AsyncState → Type 0) → M K (Client A) B → Type 0
  Runs {B} P Q m =
      (s : Machine K (Client A))
      → Session L o a h P s
      → (r : B) × (t : Machine K (Client A)) × (m s ≡ some (r, t))
        × Session L o a h (Q r) t
        × ((j : ℕ) → L.context t.world j ≡ L.context s.world j)

  pub Session-weaken :
      {P Q : AsyncState → Type 0} {s : Machine K (Client A)}
      → ((st : AsyncState) → P st → Q st)
      → Session L o a h P s
      → Session L o a h Q s
  Session-weaken f v = let (st, e, x) = v.holds in record { own = v.own; holds = (st, e, f st x) }

  pub Runs-pure :
      {B : Type 0} {P : AsyncState → Type 0} {Q : B → AsyncState → Type 0} (b : B)
      → ((st : AsyncState) → P st → Q b st)
      → Runs P Q (pure b)
  Runs-pure b f s v = (b, s, refl, Session-weaken f v, λ j. refl)

  pub Runs-bind :
      {B C : Type 0} {P : AsyncState → Type 0} (Q : B → AsyncState → Type 0)
      {R : C → AsyncState → Type 0} {m : M K (Client A) B} {f : B → M K (Client A) C}
      → Runs P Q m
      → ((b : B) → Runs (Q b) R (f b))
      → Runs P R (m >>= f)
  Runs-bind Q {m = m} {f = f} first rest s v =
      let (b, t, e, w, k) = first s v in
      let (c, u, e', w', k') = rest b t w in (c, u, rw (e, ◌>>=◌) e', w', λ j. k' j ∙ k j)

  pub Runs-then :
      {C : Type 0} {P : AsyncState → Type 0} (Q : AsyncState → Type 0) {R : C → AsyncState → Type 0}
      {m : M K (Client A) (Unit {0})} {n : M K (Client A) C}
      → Runs P (λ _. Q) m
      → Runs Q R n
      → Runs P R (m >> n)
  Runs-then Q {m = m} {n = n} x y = Runs-bind (λ _. Q) {m = m} {f = λ _. n} x (λ _. y)

  pub Runs-if :
      {B : Type 0} {P : AsyncState → Type 0} {Q : B → AsyncState → Type 0} (test : Bool)
      {m n : M K (Client A) B}
      → (test ≡ true → Runs P Q m)
      → (test ≡ false → Runs P Q n)
      → Runs P Q (if test then m else n)
  Runs-if true x y = x refl
  Runs-if false x y = y refl

  pub Runs-weaken :
      {B : Type 0} {P P' : AsyncState → Type 0} {Q Q' : B → AsyncState → Type 0}
      {m : M K (Client A) B}
      → ((st : AsyncState) → P' st → P st)
      → ((b : B) (st : AsyncState) → Q b st → Q' b st)
      → Runs P Q m
      → Runs P' Q' m
  Runs-weaken f g x s v =
      let (b, t, e, w, k) = x s (Session-weaken f v) in (b, t, e, Session-weaken (g b) w, k)

  -- A fact that does not depend on the requests.
  pub Runs-fact :
      {B : Type 0} {P : AsyncState → Type 0} {Q : B → AsyncState → Type 0} {F : Type 0}
      {m : M K (Client A) B}
      → (F → Runs P Q m)
      → Runs (λ st. P st × F) Q m
  Runs-fact f s v = let (st, e, (x, y)) = v.holds in f y s (Session-weaken (λ st z. z.0) v)

  -- A fact that the requests give.
  pub Runs-given :
      {B : Type 0} {P : AsyncState → Type 0} {Q : B → AsyncState → Type 0} {m : M K (Client A) B}
      (F : Type 0)
      → ((st : AsyncState) → P st → F)
      → (F → Runs P Q m)
      → Runs P Q m
  Runs-given F g f s v = let (st, e, x) = v.holds in f (g st x) s v

  -- A change of the application's own state.
  pub Runs-app :
      (P : AsyncState → Type 0) (f : A → A)
      → Runs P (λ _. P) (λ s. some (tt, record s { user = on_app f s.user }))
  Runs-app P f s v = (
    tt,
    record s { user = on_app f s.user },
    refl,
    record {
      own = record { stored = v.own.stored; handle = refl; context = v.own.context };
      holds = v.holds;
    },
    λ j. refl,
  )

  pub Runs-read :
      (P : AsyncState → Type 0) → Runs P (λ st st'. (st ≡ st') × P st') (read_requests K)
  unfolding read_requests
  Runs-read P s v =
      let (st, e, x) = v.holds in
      (
        st,
        s,
        rw (e, read_requests) refl,
        record { own = v.own; holds = (st, e, (refl, x)) },
        λ j. refl,
      )
