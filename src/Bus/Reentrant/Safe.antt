-- ===== src/Bus/Reentrant/Safe.antt =====
-- What callbacks that call the Bus again can come upon: a user context that is not the Impl's, and
-- a callback that is set while it runs.

use stdiobus_cpp.Prelude.{
  ℕ, ◌≡◌, sym, ◌∙◌, ap, subst, true, Option, none, some, List, ◌∷◌, ◌==◌, ==_refl, inl, inr,
  Option-cases, if◌then◌else◌,
}
use stdiobus_cpp.Prelude.Int.{to_int}
use stdiobus_cpp.Error.{from_c}
use stdiobus_cpp.Embed.Kernel.{Callback, Event}
use stdiobus_cpp.Bus.Reentrant.{
  Course, returns, calls, Kernel, Site, Outcome, done, undefined, deeper, and_then, run_code,
  run_course, notify, trampoline, answered, operate,
}
use stdiobus_cpp.Bus.Reentrant.Interface.{Keeps, Contract}
use stdiobus_cpp.Bus.Reentrant.Callbacks
use stdiobus_cpp.Bus.Reentrant.Callbacks.{
  Slot, Notice, slot_of, notice_of, gave, stepped, Operation, Answer, Code, finish, change, look,
  run, set, unset, Meets,
}

-- A run that is done leaves what `P` holds of, and none is undefined; `D` says whether it may need
-- more depth.
abbrev pub Good : {A : Type 0} → Type 0 → (A → Type 0) → Outcome A → Type 0
Good D P (done a) = P a
Good D P undefined = ⊥
Good D P deeper = D

and_then-Good :
    {A B : Type 0} (D : Type 0) (P : A → Type 0) (Q : B → Type 0) (o : Outcome A)
    (f : A → Outcome B)
    → Good D P o
    → ((a : A) → P a → Good D Q (f a))
    → Good D Q (and_then o f)
unfolding and_then
and_then-Good D P Q (done a) f good next = next a good
and_then-Good D P Q undefined f good next = good
and_then-Good D P Q deeper f good next = good

-- The callbacks that are set keep `P` of the application's state, with the calls that `allows` holds
-- of.
abbrev pub SlotMeets :
    {U : Type 0} → (Operation → Type 0) → (U → Type 0) → Option (Notice → Code U) → Type 0
SlotMeets allows P none = Unit {0}
SlotMeets {U} allows P (some handler) = (x : Notice) (u : U) → P u → Meets allows P (handler x) u

abbrev pub AllMeet :
    {U : Type 0} → (Operation → Type 0) → (U → Type 0) → (Slot → Option (Notice → Code U)) → Type 0
AllMeet allows P handlers = (slot : Slot) → SlotMeets allows P (handlers slot)

-- The Bus has its instance, the instance has the Impl as its user context, and the callbacks are
-- the ones given.
pub record IsKept {K : Kernel} {U : Type 0} (context : K.World → ℕ → Option ℕ) (address h : ℕ)
    (handlers : Slot → Option (Notice → Code U)) (s : Site K U) : Type 0 where
  pub handle_kept : s.handle ≡ some h
  pub context_kept : context s.world h ≡ some address
  pub handlers_kept : s.handlers ≡ handlers

module _ {K : Kernel} {U : Type 0} (contract : Contract K) (address h : ℕ)
    (handlers : Slot → Option (Notice → Code U)) (P : U → Type 0) (D : Type 0) where
  abbrev pub Kept : Site K U → Type 0
  Kept s = IsKept contract.context address h handlers s × P s.user

  abbrev pub Answered : {A : Type 0} → A × Site K U → Type 0
  Answered x = Kept x.1

  pub run_code-Good :
      (allows : Operation → Type 0) (invoke : Operation → Site K U → Outcome (Answer × Site K U))
      (active : List Slot)
      → ((op : Operation) → allows op → (s : Site K U) → Kept s → Good D Answered (invoke op s))
      → (code : Code U) (s : Site K U) → IsKept contract.context address h handlers s
      → Meets allows P code s.user
      → Good D Kept (run_code invoke active code s)
  unfolding run_code
  run_code-Good allows invoke active can finish s kept meets = (kept, meets)
  run_code-Good allows invoke active can (change f code) s kept meets =
      run_code-Good allows invoke active can code (record s { user = f s.user })
        (record {
          handle_kept = kept.handle_kept;
          context_kept = kept.context_kept;
          handlers_kept = kept.handlers_kept;
        })
        meets
  run_code-Good allows invoke active can (look f) s kept meets =
      run_code-Good allows invoke active can (f s.user) s kept meets
  run_code-Good allows invoke active can (run op f) s kept meets =
      and_then-Good D Answered Kept (invoke op s) (λ x. run_code invoke active (f x.0) x.1)
        (can op meets.0 s (kept, meets.1))
        (λ x kept_x.
          run_code-Good allows invoke active can (f x.0) x.1 kept_x.0
            (meets.2 x.0 (x.1).user kept_x.1))
  run_code-Good allows invoke active can (set slot handler code) s kept meets = absurd meets
  run_code-Good allows invoke active can (unset slot code) s kept meets = absurd meets

  run_course-Good :
      {A : Type 0} (deliver : Callback → Site K U → Outcome (Site K U))
      → ((c : Callback)
          → c.user_data ≡ address
          → (s : Site K U) → Kept s
          → Good D Kept (deliver c s))
      → (course : Course K.World A)
      → Keeps address (λ v. contract.context v h ≡ some address) course
      → (s : Site K U) → Kept s
      → Good D Answered (run_course deliver course s)
  unfolding run_course
  run_course-Good deliver can (returns a w) keeps s kept = (
    record {
      handle_kept = kept.0.handle_kept;
      context_kept = keeps;
      handlers_kept = kept.0.handlers_kept;
    },
    kept.1,
  )
  run_course-Good deliver can (calls c w rest) keeps s kept =
      and_then-Good D Kept Answered (deliver c (record s { world = w }))
        (λ t. run_course deliver (rest t.world) t)
        (can c keeps.0 (record s { world = w })
          (
            record {
              handle_kept = kept.0.handle_kept;
              context_kept = keeps.1;
              handlers_kept = kept.0.handlers_kept;
            },
            kept.1,
          ))
        (λ t kept_t.
          run_course-Good deliver can (rest t.world) (keeps.2 t.world kept_t.0.context_kept) t
            kept_t)

  module _ (allows : Operation → Type 0) (only : AllMeet allows P handlers)
      (invoke : List Slot → Operation → Site K U → Outcome (Answer × Site K U))
      (can : (active : List Slot) (op : Operation)
        → allows op
        → (s : Site K U) → Kept s
        → Good D Answered (invoke active op s)) where
    notify-Good :
        (active : List Slot) (event : Event) (s : Site K U)
        → Kept s
        → Good D Kept (notify invoke active event s)
    unfolding notify
    notify-Good active event s kept = elim (Option-cases (s.handlers (slot_of event))) [
      | inl e ↦ rw (Good, notify, e) kept
      | inr (handler, e) ↦
          rw (Good, notify, e)
            (run_code-Good allows (invoke (slot_of event ∷ active)) (slot_of event ∷ active)
              (can (slot_of event ∷ active)) (handler (notice_of event)) s kept.0
              (subst (SlotMeets allows P)
                (ap (λ f. f (slot_of event)) (sym kept.0.handlers_kept) ∙ e) (only (slot_of event))
                (notice_of event) s.user kept.1))
    ]

    pub trampoline-Good :
        (active : List Slot) (c : Callback)
        → c.user_data ≡ address
        → (s : Site K U) → Kept s
        → Good D Kept (trampoline address invoke active c s)
    unfolding trampoline
    trampoline-Good active c ours s kept =
        subst (λ b. Good D Kept (if b then notify invoke active c.event s else undefined))
          (sym (subst (λ a. (address == a) ≡ true) (sym ours) (==_refl address)))
          (notify-Good active c.event s kept)

  pub answered-Good :
      {A : Type 0} (f : A → Answer) (o : Outcome (A × Site K U))
      → Good D Answered o
      → Good D Answered (answered f o)
  unfolding answered
  answered-Good f o good =
      and_then-Good D Answered Answered o (λ x. done (f x.0, x.1)) good (λ x kept_x. kept_x)

  module _ (deliver : Callback → Site K U → Outcome (Site K U)) (s : Site K U) (kept : Kept s) where
    call-Good :
        {A : Type 0} (f : A → Answer) (course : Course K.World A)
        → ((c : Callback)
            → c.user_data ≡ address
            → (t : Site K U) → Kept t
            → Good D Kept (deliver c t))
        → Keeps address (λ v. contract.context v h ≡ some address) course
        → Good D Answered (answered f (run_course deliver course s))
    call-Good f course can keeps =
        answered-Good f (run_course deliver course s)
          (run_course-Good deliver can course keeps s kept)

    pub operate-Good :
        ((c : Callback)
          → c.user_data ≡ address
          → (t : Site K U) → Kept t
          → Good D Kept (deliver c t))
        → (op : Operation) → Good D Answered (operate deliver op s)
    unfolding operate
    operate-Good can Callbacks.start =
        rw (operate, kept.0.handle_kept)
          (call-Good (λ rc. gave (from_c rc)) (K.start h s.world) can
            (contract.start h address s.world kept.0.context_kept))
    operate-Good can (Callbacks.step n) =
        rw (operate, kept.0.handle_kept)
          (call-Good stepped (K.step h (to_int n) s.world) can
            (contract.step h address (to_int n) s.world kept.0.context_kept))
    operate-Good can (Callbacks.stop n) =
        rw (operate, kept.0.handle_kept)
          (call-Good (λ rc. gave (from_c rc)) (K.stop h (to_int n) s.world) can
            (contract.stop h address (to_int n) s.world kept.0.context_kept))
    operate-Good can (Callbacks.send m) =
        rw (operate, kept.0.handle_kept)
          (call-Good (λ rc. gave (from_c rc)) (K.ingest h m s.world) can
            (contract.ingest h address m s.world kept.0.context_kept))
    operate-Good can Callbacks.state = rw (operate, kept.0.handle_kept) kept
