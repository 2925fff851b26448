-- ===== src/Bus/Reentrant/Depth.antt =====
-- The depth of a run of callbacks that call the Bus again.

use stdiobus_cpp.Prelude.{
  ℕ, zero, suc, arith, ◌+◌, ◌≡◌, refl, sym, subst, Bool, true, false, Option, none, some, List, ◌∷◌,
  ◌==◌, if◌then◌else◌,
}
use stdiobus_cpp.Prelude.Int.{to_int}
use stdiobus_cpp.ErrorCode.{value, invalid}
use stdiobus_cpp.Error.{from_c}
use stdiobus_cpp.Bus.Calls.{not_initialized}
use stdiobus_cpp.Embed.Kernel.{Callback, Event}
use stdiobus_cpp.Bus.Reentrant.{
  Course, returns, calls, Kernel, Site, Outcome, done, undefined, deeper, and_then, is_active,
  run_code, assign, run_course, notify, trampoline, answered, operate, perform,
}
use stdiobus_cpp.Bus.Reentrant.Callbacks
use stdiobus_cpp.Bus.Reentrant.Callbacks.{
  Slot, slot_of, notice_of, Operation, Answer, gave, stepped, Code, finish, change, look, run, set,
  unset,
}

-- The second run ends as the first one does, if that one ends.
abbrev pub Extends : {A : Type 0} → Outcome A → Outcome A → Type 0
Extends (done a) p = p ≡ done a
Extends undefined p = p ≡ undefined
Extends deeper p = Unit {0}

Extends-refl : {A : Type 0} (o : Outcome A) → Extends o o
Extends-refl (done a) = refl
Extends-refl undefined = refl
Extends-refl deeper = tt

Extends-trans : {A : Type 0} (o p q : Outcome A) → Extends o p → Extends p q → Extends o q
Extends-trans (done a) p q e f = subst (λ o. Extends o q) e f
Extends-trans undefined p q e f = subst (λ o. Extends o q) e f
Extends-trans deeper p q e f = tt

and_then-Extends :
    {A B : Type 0} (o p : Outcome A) (f g : A → Outcome B)
    → Extends o p
    → ((a : A) → Extends (f a) (g a))
    → Extends (and_then o f) (and_then p g)
unfolding and_then
and_then-Extends (done a) p f g e step = subst (λ q. Extends (f a) (and_then q g)) (sym e) (step a)
and_then-Extends undefined p f g e step = rw e refl
and_then-Extends deeper p f g e step = tt

guarded-Extends :
    {A : Type 0} (b : Bool) (o p : Outcome A)
    → Extends o p
    → Extends (elim b [ true ↦ undefined | false ↦ o ]) (elim b [ true ↦ undefined | false ↦ p ])
guarded-Extends true o p e = refl
guarded-Extends false o p e = e

tested-Extends :
    {A : Type 0} (b : Bool) (o p q : Outcome A)
    → Extends o p
    → Extends (if b then o else q) (if b then p else q)
tested-Extends true o p q e = e
tested-Extends false o p q e = Extends-refl q

done-Extends :
    {A : Type 0} (h : Option ℕ) (x : A) (o p : ℕ → Outcome A)
    → ((h : ℕ) → Extends (o h) (p h))
    → Extends (elim h [ none ↦ done x | some h ↦ o h ]) (elim h [ none ↦ done x | some h ↦ p h ])
done-Extends none x o p e = refl
done-Extends (some h) x o p e = e h

the_sum : {n : ℕ} (d : ℕ) → n ≡ 0 + d → d ≡ n
the_sum d e = omega arith

the_next : {n : ℕ} (k d : ℕ) → n ≡ suc k + d → suc (k + d) ≡ n
the_next k d e = omega arith

module _ {K : Kernel} {U : Type 0} where
  module _ (invoke again : Operation → Site K U → Outcome (Answer × Site K U))
      (extends : (op : Operation) (s : Site K U) → Extends (invoke op s) (again op s))
      (active : List Slot) where
    run_code-Extends :
        (code : Code U) (s : Site K U)
        → Extends (run_code invoke active code s) (run_code again active code s)
    unfolding run_code
    run_code-Extends finish s = refl
    run_code-Extends (change f code) s = run_code-Extends code (record s { user = f s.user })
    run_code-Extends (look f) s = run_code-Extends (f s.user) s
    run_code-Extends (run op f) s =
        and_then-Extends (invoke op s) (again op s) (λ x. run_code invoke active (f x.0) x.1)
          (λ x. run_code again active (f x.0) x.1) (extends op s)
          (λ x. run_code-Extends (f x.0) x.1)
    run_code-Extends (set slot handler code) s =
        guarded-Extends (is_active slot active)
          (run_code invoke active code (assign slot (some handler) s))
          (run_code again active code (assign slot (some handler) s))
          (run_code-Extends code (assign slot (some handler) s))
    run_code-Extends (unset slot code) s =
        guarded-Extends (is_active slot active) (run_code invoke active code (assign slot none s))
          (run_code again active code (assign slot none s))
          (run_code-Extends code (assign slot none s))

  run_course-Extends :
      {A : Type 0} (deliver again : Callback → Site K U → Outcome (Site K U))
      → ((c : Callback) (s : Site K U) → Extends (deliver c s) (again c s))
      → (course : Course K.World A) (s : Site K U)
      → Extends (run_course deliver course s) (run_course again course s)
  unfolding run_course
  run_course-Extends deliver again extends (returns a w) s = refl
  run_course-Extends deliver again extends (calls c w rest) s =
      and_then-Extends (deliver c (record s { world = w })) (again c (record s { world = w }))
        (λ t. run_course deliver (rest t.world) t) (λ t. run_course again (rest t.world) t)
        (extends c (record s { world = w }))
        (λ t. run_course-Extends deliver again extends (rest t.world) t)

  module _ (invoke again : List Slot → Operation → Site K U → Outcome (Answer × Site K U))
      (extends : (active : List Slot) (op : Operation) (s : Site K U)
        → Extends (invoke active op s) (again active op s))
      (active : List Slot) where
    notify-Extends :
        (event : Event) (s : Site K U)
        → Extends (notify invoke active event s) (notify again active event s)
    unfolding notify
    notify-Extends event s =
        elim (s.handlers (slot_of event))
          as (λ o.
            Extends
              (elim o [
                | none ↦ done s
                | some handler ↦
                    run_code (invoke (slot_of event ∷ active)) (slot_of event ∷ active)
                      (handler (notice_of event)) s
              ])
              (elim o [
                | none ↦ done s
                | some handler ↦
                    run_code (again (slot_of event ∷ active)) (slot_of event ∷ active)
                      (handler (notice_of event)) s
              ])) [
                | none ↦ refl
                | some handler ↦
                    run_code-Extends (invoke (slot_of event ∷ active))
                      (again (slot_of event ∷ active)) (extends (slot_of event ∷ active))
                      (slot_of event ∷ active) (handler (notice_of event)) s
              ]

    trampoline-Extends :
        (address : ℕ) (c : Callback) (s : Site K U)
        → Extends (trampoline address invoke active c s) (trampoline address again active c s)
    unfolding trampoline
    trampoline-Extends address c s =
        tested-Extends (address == c.user_data) (notify invoke active c.event s)
          (notify again active c.event s) undefined (notify-Extends c.event s)

  module _ (deliver again : Callback → Site K U → Outcome (Site K U))
      (extends : (c : Callback) (s : Site K U) → Extends (deliver c s) (again c s)) where
    call-Extends :
        {A : Type 0} (f : A → Answer) (course : Course K.World A) (s : Site K U)
        → Extends
            (answered f (run_course deliver course s))
            (answered f (run_course again course s))
    unfolding answered
    call-Extends f course s =
        and_then-Extends (run_course deliver course s) (run_course again course s)
          (λ x. done (f x.0, x.1)) (λ x. done (f x.0, x.1))
          (run_course-Extends deliver again extends course s) (λ x. refl)

    operate-Extends :
        (op : Operation) (s : Site K U) → Extends (operate deliver op s) (operate again op s)
    unfolding operate
    operate-Extends Callbacks.start s =
        done-Extends s.handle (gave not_initialized, s)
          (λ h. answered (λ rc. gave (from_c rc)) (run_course deliver (K.start h s.world) s))
          (λ h. answered (λ rc. gave (from_c rc)) (run_course again (K.start h s.world) s))
          (λ h. call-Extends (λ rc. gave (from_c rc)) (K.start h s.world) s)
    operate-Extends (Callbacks.step n) s =
        done-Extends s.handle (stepped (value invalid), s)
          (λ h. answered stepped (run_course deliver (K.step h (to_int n) s.world) s))
          (λ h. answered stepped (run_course again (K.step h (to_int n) s.world) s))
          (λ h. call-Extends stepped (K.step h (to_int n) s.world) s)
    operate-Extends (Callbacks.stop n) s =
        done-Extends s.handle (gave not_initialized, s)
          (λ h.
            answered (λ rc. gave (from_c rc)) (run_course deliver (K.stop h (to_int n) s.world) s))
          (λ h.
            answered (λ rc. gave (from_c rc)) (run_course again (K.stop h (to_int n) s.world) s))
          (λ h. call-Extends (λ rc. gave (from_c rc)) (K.stop h (to_int n) s.world) s)
    operate-Extends (Callbacks.send m) s =
        done-Extends s.handle (gave not_initialized, s)
          (λ h. answered (λ rc. gave (from_c rc)) (run_course deliver (K.ingest h m s.world) s))
          (λ h. answered (λ rc. gave (from_c rc)) (run_course again (K.ingest h m s.world) s))
          (λ h. call-Extends (λ rc. gave (from_c rc)) (K.ingest h m s.world) s)
    operate-Extends Callbacks.state s = Extends-refl (operate deliver Callbacks.state s)

  perform-Extends :
      (address depth : ℕ) (active : List Slot) (op : Operation) (s : Site K U)
      → Extends (perform address depth active op s) (perform address (suc depth) active op s)
  unfolding perform
  perform-Extends address zero active op s = tt
  perform-Extends address (suc depth) active op s =
      operate-Extends (trampoline address (perform address depth) active)
        (trampoline address (perform address (suc depth)) active)
        (trampoline-Extends (perform address depth) (perform address (suc depth))
          (perform-Extends address depth) active address)
        op s

  -- An operation that ends on some depth of calls within calls, or is undefined on it, does the same
  -- on every greater depth.
  pub perform_deeper :
      (address depth more : ℕ) (active : List Slot) (op : Operation) (s : Site K U)
      → Extends (perform address depth active op s) (perform address (more + depth) active op s)
  perform_deeper address depth more active op s = at_most more refl
    where
      at_most :
          (k : ℕ) {n : ℕ}
          → n ≡ k + depth
          → Extends (perform address depth active op s) (perform address n active op s)
      at_most zero e =
          subst (λ n. Extends (perform address depth active op s) (perform address n active op s))
            (the_sum depth e) (Extends-refl (perform address depth active op s))
      at_most (suc k) e =
          subst (λ n. Extends (perform address depth active op s) (perform address n active op s))
            (the_next k depth e)
            (Extends-trans (perform address depth active op s)
              (perform address (k + depth) active op s)
              (perform address (suc (k + depth)) active op s) (at_most k refl)
              (perform-Extends address (k + depth) active op s))
