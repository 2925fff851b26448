-- ===== src/Bus/Reentrant.antt =====
-- A Bus whose callbacks call it again while a call of the kernel is under way. The kernel's calls
-- are given step by step: a call returns, or it calls a callback and goes on with the state in which
-- the callback leaves the kernel. One Bus, between its construction and its destruction.
pub mod Callbacks
pub mod Interface
pub mod Safe
pub mod Replies
pub mod Depth
use mathlib.Core.Option
use stdiobus_cpp.Prelude.{
  ℕ, zero, suc, Bool, true, false, Option, none, some, List, [], ◌∷◌, Bytes, ◌||◌, ◌==◌,
  if◌then◌else◌,
}
use stdiobus_cpp.Prelude.Int.{ℤ, to_int}
use stdiobus_cpp.ErrorCode.{value, invalid}
use stdiobus_cpp.Error.{Error, from_c}
use stdiobus_cpp.Types.{stopped}
use stdiobus_cpp.Ffi.{to_state}
use stdiobus_cpp.Embed.{CState}
use stdiobus_cpp.Embed.Kernel.{Callback, Event}
use stdiobus_cpp.Bus.Calls.{not_initialized}
use stdiobus_cpp.Bus.Reentrant.Callbacks
use stdiobus_cpp.Bus.Reentrant.Callbacks.{
  Slot, same_slot, Notice, slot_of, notice_of, Operation, Answer, gave, stepped, was, Code, finish,
  change, look, run, set, unset,
}

-- A call of a C function, from where it stands on.
pub data Course (W A : Type 0) : Type 0 where
  returns : A → W → Course W A
  calls : Callback → W → (W → Course W A) → Course W A

pub record Kernel : Type 1 where
  pub World : Type 0
  pub start : ℕ → World → Course World ℤ
  pub step : ℕ → ℤ → World → Course World ℤ
  pub stop : ℕ → ℤ → World → Course World ℤ
  pub ingest : ℕ → Bytes → World → Course World ℤ
  pub get_state : ℕ → World → CState

-- The kernel, the Impl of the Bus, and the application's state.
pub record Site (K : Kernel) (U : Type 0) : Type 0 where
  pub world : K.World
  pub handle : Option ℕ
  pub handlers : Slot → Option (Notice → Code U)
  pub user : U

-- How far a run comes on the given depth of calls within calls.
pub data Outcome (A : Type 0) : Type 0 where
  done : A → Outcome A
  undefined : Outcome A
  deeper : Outcome A

unfoldable pub and_then : {A B : Type 0} → Outcome A → (A → Outcome B) → Outcome B
and_then (done a) f = f a
and_then undefined f = undefined
and_then deeper f = deeper

-- A callback of the slot is running.
unfoldable pub is_active : Slot → List Slot → Bool
unfolding same_slot
is_active slot [] = false
is_active slot (s ∷ slots) = same_slot slot s || is_active slot slots

module _ {K : Kernel} {U : Type 0} where
  -- impl_->options.on_... = std::move(cb)
  abbrev pub assign : Slot → Option (Notice → Code U) → Site K U → Site K U
  assign slot handler s = record s {
    handlers = λ other. if same_slot slot other then handler else s.handlers other;
  }

  -- A callback, with the calls that it makes run by `invoke`. To set a callback that is running is
  -- undefined: the assignment destroys the function whose code goes on behind it.
  unfoldable pub run_code :
      (Operation → Site K U → Outcome (Answer × Site K U))
      → List Slot
      → Code U
      → Site K U
      → Outcome (Site K U)
  unfolding and_then is_active
  run_code invoke active finish s = done s
  run_code invoke active (change f code) s =
      run_code invoke active code (record s { user = f s.user })
  run_code invoke active (look f) s = run_code invoke active (f s.user) s
  run_code invoke active (run op f) s =
      and_then (invoke op s) (λ x. run_code invoke active (f x.0) x.1)
  run_code invoke active (set slot handler code) s = elim (is_active slot active) [
    | true ↦ undefined
    | false ↦ run_code invoke active code (assign slot (some handler) s)
  ]
  run_code invoke active (unset slot code) s = elim (is_active slot active) [
    | true ↦ undefined
    | false ↦ run_code invoke active code (assign slot none s)
  ]

  -- The rest of a call of a C function; `deliver` is what a callback does.
  unfoldable pub run_course :
      {A : Type 0}
      → (Callback → Site K U → Outcome (Site K U))
      → Course K.World A
      → Site K U
      → Outcome (A × Site K U)
  unfolding and_then
  run_course deliver (returns a w) s = done (a, record s { world = w })
  run_course deliver (calls c w rest) s =
      and_then (deliver c (record s { world = w })) (λ t. run_course deliver (rest t.world) t)

  -- if (impl->options.on_...) impl->options.on_...(...)
  unfoldable pub notify :
      (List Slot → Operation → Site K U → Outcome (Answer × Site K U))
      → List Slot
      → Event
      → Site K U
      → Outcome (Site K U)
  unfolding run_code slot_of notice_of
  notify invoke active event s = elim (s.handlers (slot_of event)) [
    | none ↦ done s
    | some handler ↦
        run_code (invoke (slot_of event ∷ active)) (slot_of event ∷ active)
          (handler (notice_of event)) s
  ]

  -- The six trampolines. The Impl of the Bus is at `address`.
  unfoldable pub trampoline :
      ℕ
      → (List Slot → Operation → Site K U → Outcome (Answer × Site K U))
      → List Slot
      → Callback
      → Site K U
      → Outcome (Site K U)
  unfolding notify
  trampoline address invoke active c s =
      if address == c.user_data then notify invoke active c.event s else undefined

  -- `done` with what is made of the result.
  unfoldable pub answered :
      {A : Type 0} → (A → Answer) → Outcome (A × Site K U) → Outcome (Answer × Site K U)
  unfolding and_then
  answered f o = and_then o (λ x. done (f x.0, x.1))

  -- Bus::start, step, stop, send and state, where `deliver` is what a callback does.
  unfoldable pub operate :
      (Callback → Site K U → Outcome (Site K U))
      → Operation
      → Site K U
      → Outcome (Answer × Site K U)
  unfolding run_course answered from_c to_int value to_state
  operate deliver Callbacks.start s = elim s.handle [
    | none ↦ done (gave not_initialized, s)
    | some h ↦ answered (λ rc. gave (from_c rc)) (run_course deliver (K.start h s.world) s)
  ]
  operate deliver (Callbacks.step n) s = elim s.handle [
    | none ↦ done (stepped (value invalid), s)
    | some h ↦ answered stepped (run_course deliver (K.step h (to_int n) s.world) s)
  ]
  operate deliver (Callbacks.stop n) s = elim s.handle [
    | none ↦ done (gave not_initialized, s)
    | some h ↦
        answered (λ rc. gave (from_c rc)) (run_course deliver (K.stop h (to_int n) s.world) s)
  ]
  operate deliver (Callbacks.send m) s = elim s.handle [
    | none ↦ done (gave not_initialized, s)
    | some h ↦ answered (λ rc. gave (from_c rc)) (run_course deliver (K.ingest h m s.world) s)
  ]
  operate deliver Callbacks.state s = elim s.handle [
    | none ↦ done (was stopped, s)
    | some h ↦ done (was (to_state (K.get_state h s.world)), s)
  ]

  -- An operation with callbacks within callbacks up to a depth.
  unfoldable pub perform : ℕ → ℕ → List Slot → Operation → Site K U → Outcome (Answer × Site K U)
  unfolding operate trampoline
  perform address zero active op s = deeper
  perform address (suc depth) active op s =
      operate (trampoline address (perform address depth) active) op s
