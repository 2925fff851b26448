-- ===== src/Tests/Buses.antt =====
-- Programs with Bus variables on the echoing kernel.
use stdiobus_cpp.Prelude.{
  or_default, ℕ, ◌≡◌, ◌≢◌, ◌⊎◌, ◌==◌, if◌then◌else◌, refl, none, some, [], ◌∷◌, Bytes, codes, subst,
  some-injective, sym, ◌∙◌,
}
use stdiobus_cpp.Prelude.Int.{pos}
use stdiobus_cpp.Types.{ListenMode, Options, default_options}
use stdiobus_cpp.Bus.Configuration.{holds_nul, listen_mode, c_options_lem}
use stdiobus_cpp.Bus.Machine.{Impl, Machine, update}
use stdiobus_cpp.Embed.{CState}
use stdiobus_cpp.Bus.Lifetime.{destruct, c_options}
use stdiobus_cpp.Bus.Delivery.{deliver}
use stdiobus_cpp.Bus.Behaviour.{Owns}
use stdiobus_cpp.Bus.Lifecycle.{destruct_by_state, built}
use stdiobus_cpp.Bus.Program.{
  Program, Action, construct_at, move_into, call_at, send_call, step_call, perform,
}
use stdiobus_cpp.Bus.Program.Sound.{IsSound, IsAllowed}
use stdiobus_cpp.Bus.Program.History.{Reach, here, next, IsFresh, Reach-perform, Reach-NoLeak}
use stdiobus_cpp.Bus.Program.Leak.{move_into_leaks}
use stdiobus_cpp.Tests.Echo.{echo, echo_contract, has_config, context_at}

-- The application collects its messages.
abbrev Log : Type 0
Log = Bytes

abbrev options : Options Log
options = record (default_options Log) {
  config_path = codes "bus.json";
  on_message = some (λ m log. m);
}

abbrev empty : Machine echo Log
empty = record {
  world = record { contexts = []; queue = [] };
  heap = λ a. none;
  next = 0;
  user = [];
}

abbrev fresh : Program echo Log
fresh = record { machine = empty; slots = λ i. none }

fresh-IsFresh : IsFresh fresh
fresh-IsFresh = record { no_slots = λ i. refl; no_impls = λ a. refl }

-- Bus a(options);
abbrev opened : Program echo Log
opened = record { machine = built options empty; slots = update fresh.slots 0 (some (some 0)) }

opened_from : perform echo (construct_at 0 options) fresh ≡ some opened
unfolding perform has_config c_options deliver
opened_from = refl

-- a.send("hi");
abbrev send_hi : Action Log
send_hi = call_at 0 (send_call (codes "hi"))

abbrev sent : Program echo Log
sent = record opened {
  machine = record (opened.machine) {
    world = record { contexts = some 0 ∷ []; queue = codes "hi" ∷ [] };
  };
}

sent_from : perform echo send_hi opened ≡ some sent
unfolding perform has_config c_options deliver
sent_from = refl

-- Bus b(options);
abbrev two : Program echo Log
two = record {
  machine = built options opened.machine;
  slots = update opened.slots 1 (some (some 1));
}

two_from : perform echo (construct_at 1 options) opened ≡ some two
unfolding perform has_config c_options deliver
two_from = refl

opened_Reach : Reach IsAllowed fresh opened
opened_Reach = next (construct_at 0 options) here refl opened_from

Reach-perform_example :
    (r : Program echo Log) × (perform echo (call_at 0 (step_call (pos 0))) sent ≡ some r)
    × IsSound echo_contract r
Reach-perform_example =
    Reach-perform echo_contract {p = fresh} {q = sent} fresh-IsFresh
      (next send_hi opened_Reach (some 0, refl) sent_from) (call_at 0 (step_call (pos 0)))
      (some 0, refl)

Reach-NoLeak_example : (i : ℕ) × (sent.slots i ≡ some (some 0))
unfolding context_at echo_contract has_config c_options
Reach-NoLeak_example =
    Reach-NoLeak echo_contract {p = fresh} {q = sent} fresh-IsFresh (λ h. refl)
      (next send_hi (next (construct_at 0 options) here (refl, tt) opened_from) ((some 0, refl), tt)
        sent_from)
      0 0 refl

-- The first Bus of `two` and its instance.
abbrev first : Impl Log
first = record { handle = some 0; options = options }

opened_Owns : Owns echo_contract opened.machine 0 0 first
unfolding has_config c_options context_at echo_contract
opened_Owns = record { stored = refl; handle = refl; context = refl }

two_Owns : Owns echo_contract two.machine 0 0 first
unfolding has_config c_options context_at echo_contract
two_Owns = record { stored = refl; handle = refl; context = refl }

two-IsSound : IsSound echo_contract two
two-IsSound =
    let (r, e, v) =
      Reach-perform echo_contract {p = fresh} {q = opened} fresh-IsFresh opened_Reach
        (construct_at 1 options) refl in
    subst (IsSound echo_contract) (some-injective r two (sym e ∙ two_from)) v

move_into_leaks_example :
    (q : Program echo Log) × (perform echo (move_into 0 1) two ≡ some q)
    × (echo_contract.context q.machine.world 0 ≡ some 0)
    × (q.machine.heap 0 ≡ none)
    × ((b : ℕ) (held : Impl Log) → q.machine.heap b ≡ some held → held.handle ≢ some 0)
move_into_leaks_example =
    move_into_leaks echo_contract 0 1 0 0 first (some 1) two two-IsSound refl refl (λ e. cc e)
      two_Owns

destruct_by_state_example :
    let w = opened.machine.world in
    (t : Machine echo Log) × (destruct echo (some 0) opened.machine ≡ some (tt, t))
    × ((echo.get_state 0 w ≡ CState.running) ⊎ (echo.get_state 0 w ≡ CState.starting)
        → let stop = echo.stop 0 (pos 5) w in
          (t.world ≡ (echo.destroy 0 stop.world).world)
          × (t.user
              ≡ deliver first
                  (echo.destroy 0 stop.world).callbacks
                  (deliver first stop.callbacks [])))
    × (echo.get_state 0 w ≢ CState.running
        → echo.get_state 0 w ≢ CState.starting
        → (t.world ≡ (echo.destroy 0 w).world)
          × (t.user ≡ deliver first (echo.destroy 0 w).callbacks []))
    × ((b : ℕ) → t.heap b ≡ (if 0 == b then none else opened.machine.heap b))
unfolding deliver has_config c_options
destruct_by_state_example =
    destruct_by_state echo_contract {s = opened.machine} {a = 0} {h = 0} {impl = first} opened_Owns

c_options_lem_example :
    (or_default [] (c_options options 3).config_path ≡ codes "bus.json")
    × (or_default [] (c_options options 3).config_json ≡ [])
    × (listen_mode (c_options options 3).listener.mode ≡ ListenMode.embedded)
    × (or_default [] (c_options options 3).listener.tcp_host ≡ [])
    × ((c_options options 3).listener.tcp_port ≡ 0)
    × (or_default [] (c_options options 3).listener.unix_path ≡ [])
    × ((c_options options 3).log_level ≡ pos 1)
    × ((c_options options 3).user_data ≡ 3)
unfolding holds_nul
c_options_lem_example = c_options_lem options 3 refl refl refl refl
