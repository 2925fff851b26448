-- ===== src/Async/Client/Events.antt =====
-- The events that a call of the kernel makes for the futures of an AsyncBus, read off the callbacks
-- and the return code, and the message handler against the specification of the futures.
use stdiobus_cpp.Prelude.{
  ℕ, ◌≡◌, refl, sym, ap, ◌∙◌, subst, Option, some, List, [], ◌∷◌, ◌++◌, Bytes, if◌then◌else◌,
  Bool-cases, inl, inr,
}
use stdiobus_cpp.Prelude.Int.{ℤ}
use stdiobus_cpp.Error.{Error, is_error, from_c}
use stdiobus_cpp.Embed.Kernel.{
  Kernel, Callback, message, error, log, worker, client_connect, client_disconnect,
}
use stdiobus_cpp.Embed.Kernel
use stdiobus_cpp.Types.{Options}
use stdiobus_cpp.Bus.Machine.{Machine, dispatch}
use stdiobus_cpp.Bus.Delivery.{deliver}
use stdiobus_cpp.Async.Id.{extract_or_inject_id}
use stdiobus_cpp.Async.Pending.{AsyncState}
use stdiobus_cpp.Async.Pending.Invariant.{IsValid}
use stdiobus_cpp.Async.Pending.History
use stdiobus_cpp.Async.Pending.History.{Event, request, refused, response, tick}
use stdiobus_cpp.Async.Pending.Spec
use stdiobus_cpp.Async.Pending.Spec.{Futures}
use stdiobus_cpp.Async.Pending.View.{view}
use stdiobus_cpp.Async.Pending.Refinement.{apply-Refines}
use stdiobus_cpp.Async.Client.{Client, message_handler, resolve_failed}
use stdiobus_cpp.Async.Client.Hooked.{hooked, Holds, dispatch-other}
use stdiobus_cpp.Async.Client.Sending.{section-eq, with_requests}

-- Every message that the kernel passes on is a response.
unfoldable pub responses_of : Kernel.Event → List Event
responses_of (message msg) = response msg ∷ []
responses_of (error code msg) = []
responses_of (log level msg) = []
responses_of (worker n msg) = []
responses_of (client_connect n msg) = []
responses_of (client_disconnect n msg) = []

unfoldable pub responses : List Callback → List Event
unfolding responses_of
responses [] = []
responses (c ∷ cs) = responses_of c.event ++ responses cs

-- The message with the id was refused, if there is an error.
unfoldable pub refusals : Bytes → Error → List Event
unfolding is_error
refusals id err =
    if is_error err then refused id (record { error = err; response = [] }) ∷ [] else []

-- A request whose message the instance `h` takes in the state `w`, with the counter at `next_id`.
unfoldable pub exchange : (K : Kernel) → ℕ → K.World → ℕ → Bytes → ℤ → List Event
unfolding responses refusals extract_or_inject_id from_c
exchange K h w next_id json deadline =
    let x = extract_or_inject_id json next_id in
    let reply = K.ingest h x.json w in
    request json deadline ∷ (responses reply.callbacks ++ refusals x.id (from_c reply.result))

pub run-append :
    (es fs : List Event) (v : Futures) → Spec.run (es ++ fs) v ≡ Spec.run fs (Spec.run es v)
unfolding Spec.run
run-append [] fs v = refl
run-append (e ∷ es) fs v = run-append es fs (Spec.apply e v)

-- The requests are valid, and the futures are `v`.
abbrev pub Shows : Futures → AsyncState → Type 0
Shows v st = IsValid st × (view st ≡ v)

pub apply-Shows :
    (e : Event) (v : Futures) (st : AsyncState)
    → Shows v st
    → (st' : AsyncState) × (History.apply e st ≡ some st') × Shows (Spec.apply e v) st'
apply-Shows e v st (valid, same) =
    let (st', eq, valid', next) = apply-Refines e st valid in
    (st', eq, (valid', next ∙ ap (Spec.apply e) same))

module _ {A : Type 0} where
  message_handler-Shows :
      (msg : Bytes) (v : Futures) (c : Client A)
      → Holds (Shows v) c
      → Holds (Shows (Spec.apply (response msg) v)) (message_handler msg c)
  unfolding message_handler History.apply
  message_handler-Shows msg v c (st, e, x) =
      rw (e, message_handler) (apply-Shows (response msg) v st x)

  dispatch-Shows :
      (event : Kernel.Event) (o : Options A) (h : Option ℕ) (v : Futures) (c : Client A)
      → Holds (Shows v) c
      → Holds
          (Shows (Spec.run (responses_of event) v))
          (dispatch event (record { handle = h; options = hooked o }) c)
  unfolding dispatch responses_of Spec.run
  dispatch-Shows (message msg) o h v c k = message_handler-Shows msg v c k
  dispatch-Shows (error code msg) o h v c k =
      dispatch-other (Holds (Shows v)) (λ f d x. x) (error code msg) refl o h c k
  dispatch-Shows (log level msg) o h v c k =
      dispatch-other (Holds (Shows v)) (λ f d x. x) (log level msg) refl o h c k
  dispatch-Shows (worker n msg) o h v c k =
      dispatch-other (Holds (Shows v)) (λ f d x. x) (worker n msg) refl o h c k
  dispatch-Shows (client_connect n msg) o h v c k =
      dispatch-other (Holds (Shows v)) (λ f d x. x) (client_connect n msg) refl o h c k
  dispatch-Shows (client_disconnect n msg) o h v c k =
      dispatch-other (Holds (Shows v)) (λ f d x. x) (client_disconnect n msg) refl o h c k

  -- The callbacks of a call do to the futures what their responses do in the specification.
  pub deliver-Shows :
      (cs : List Callback) (o : Options A) (h : Option ℕ) (v : Futures) (c : Client A)
      → Holds (Shows v) c
      → Holds
          (Shows (Spec.run (responses cs) v))
          (deliver (record { handle = h; options = hooked o }) cs c)
  unfolding deliver responses Spec.run
  deliver-Shows [] o h v c k = k
  deliver-Shows (x ∷ cs) o h v c k =
      subst (λ w. Holds (Shows w) (deliver (record { handle = h; options = hooked o }) (x ∷ cs) c))
        (sym (run-append (responses_of x.event) (responses cs) v))
        (deliver-Shows cs o h (Spec.run (responses_of x.event) v) _
          (dispatch-Shows x.event o h v c k))

module _ {K : Kernel} {A : Type 0} where
  pub resolve_failed-Shows :
      (id : Bytes) (err : Error) (v : Futures) (s : Machine K (Client A))
      → Holds (Shows v) s.user
      → (t : Machine K (Client A)) × (resolve_failed K id err s ≡ some (tt, t))
        × (t.heap ≡ s.heap)
        × (t.world ≡ s.world)
        × Holds (Shows (Spec.run (refusals id err) v)) t.user
  unfolding resolve_failed refusals Spec.run History.apply
  resolve_failed-Shows id err v s (st, e, x) = elim (Bool-cases (is_error err)) [
    | inl f ↦
        let (st', eq, x') =
          apply-Shows (refused id (record { error = err; response = [] })) v st x in
        (
          with_requests st' s,
          rw (f, resolve_failed) (section-eq _ s st st' e eq),
          refl,
          refl,
          rw (f, refusals) (st', refl, x'),
        )
    | inr f ↦ (s, rw (f, resolve_failed) refl, refl, refl, rw (f, refusals) (st, e, x))
  ]
