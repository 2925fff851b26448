-- ===== src/Bus/Program.antt =====
-- A program that owns several Bus variables: every public member function as an action on them.
-- `none` is undefined behaviour: a variable outside its lifetime, or a dangling pointer.
pub mod Sound
pub mod Construct
pub mod Release
pub mod Moves
pub mod Operations
pub mod Destruct
pub mod Steps
pub mod Leak
pub mod History
use stdiobus_cpp.Prelude.{ℕ, Option, none, some, Bytes, ◌==◌, if◌then◌else◌}
use stdiobus_cpp.Prelude.Int.{ℤ}
use stdiobus_cpp.Embed.Kernel.{Kernel}
use stdiobus_cpp.Types.{Options}
use stdiobus_cpp.Bus.Machine.{Bus, Machine, M, update}
use stdiobus_cpp.Bus.Lifetime.{construct, destruct, move_construct, move_assign}
use stdiobus_cpp.Bus.Calls.{start, step, stop, send, set_options}

-- `slots i` is the Bus in variable i, and `none` outside the variable's lifetime.
pub record Program (K : Kernel) (U : Type 0) : Type 0 where
  pub machine : Machine K U
  pub slots : ℕ → Option Bus

-- Operations that may change the state; `setter` stands for the six callback setters.
pub data Call (U : Type 0) : Type 0 where
  start_call : Call U
  step_call : ℤ → Call U
  stop_call : ℤ → Call U
  send_call : Bytes → Call U
  setter : (Options U → Options U) → Call U

pub data Action (U : Type 0) : Type 0 where
  construct_at : ℕ → Options U → Action U
  destruct_at : ℕ → Action U
  -- Bus i(std::move(j));
  move_new : ℕ → ℕ → Action U
  -- i = std::move(j);
  move_into : ℕ → ℕ → Action U
  call_at : ℕ → Call U → Action U

-- The machine that a run leaves, without its result.
abbrev pub final : {A B : Type 0} → Option (A × B) → Option B
final none = none
final (some (a, b)) = some b

module _ (K : Kernel) {U : Type 0} where
  unfoldable pub run_call : Call U → Bus → Machine K U → Option (Machine K U)
  unfolding start step stop send set_options
  run_call start_call bus s = final (start K bus s)
  run_call (step_call timeout) bus s = final (step K bus timeout s)
  run_call (stop_call timeout) bus s = final (stop K bus timeout s)
  run_call (send_call message) bus s = final (send K bus message s)
  run_call (setter f) bus s = final (set_options K f bus s)

  unfoldable pub perform : Action U → Program K U → Option (Program K U)
  unfolding construct destruct move_construct move_assign run_call
  perform (construct_at i o) p = elim (construct K o p.machine) [
    | none ↦ none
    | some (bus, s) ↦ some (record { machine = s; slots = update p.slots i (some bus) })
  ]
  perform (destruct_at i) p = elim (p.slots i) [
    | none ↦ none
    | some bus ↦ (elim (destruct K bus p.machine) [
      | none ↦ none
      | some (_, s) ↦ some (record { machine = s; slots = update p.slots i none })
    ])
  ]
  perform (move_new i j) p = elim (p.slots j) [
    | none ↦ none
    | some other ↦ some (record p {
      slots =
          update (update p.slots i (some (move_construct other).0)) j
            (some (move_construct other).1);
    })
  ]
  perform (move_into i j) p = elim (p.slots i) [
    | none ↦ none
    | some this ↦ (elim (p.slots j) [
      | none ↦ none
      | some other ↦ if i == j then some p else elim (move_assign K this other p.machine) [
        | none ↦ none
        | some ((this', other'), s) ↦
            some (record {
              machine = s;
              slots = update (update p.slots i (some this')) j (some other');
            })
      ]
    ])
  ]
  perform (call_at i c) p = elim (p.slots i) [
    | none ↦ none
    | some bus ↦ (elim (run_call c bus p.machine) [
      | none ↦ none
      | some s ↦ some (record p { machine = s })
    ])
  ]
