-- ===== src/Tests/Programs.antt =====
-- The examples on the echoing kernel.
use stdiobus_cpp.Prelude.{
  ℕ, ◌≡◌, refl, none, some, List, [], ◌∷◌, ◌++◌, Bytes, codes, Bool, false, true, arith,
}
use stdiobus_cpp.Prelude.Int.{ℤ, pos, ◌+ℤ◌}
use stdiobus_cpp.Bus.Machine.{Machine}
use stdiobus_cpp.Error.{message}
use stdiobus_cpp.Bus.Lifetime.{c_options}
use stdiobus_cpp.Bus.Calls.{not_initialized}
use stdiobus_cpp.Bus.Lifecycle.{built}
use stdiobus_cpp.Examples.Basic.{path_argument}
use stdiobus_cpp.Examples.Builder.Failure.{builder_main-no_instance}
use stdiobus_cpp.Bus.Builder.{new}
use stdiobus_cpp.Bus.Builder.Settings.{
  Setting, log_level_set, listen_tcp_set, listen_unix_set, config_path_set,
}
use stdiobus_cpp.Async.Id.Decimal.{to_string}
use stdiobus_cpp.Examples.Console.{Console, err, add_line}
use stdiobus_cpp.Examples.Basic
use stdiobus_cpp.Examples.Basic.Ends.{is_late, basic_main-ends}
use stdiobus_cpp.Examples.Builder
use stdiobus_cpp.Examples.Runner
use stdiobus_cpp.Examples.Runner.Arguments.{no_settings, parse}
use stdiobus_cpp.Examples.Runner.Arguments.Text.{parse-tcp}
use stdiobus_cpp.Async.Pending.{waiting}
use stdiobus_cpp.Async.Client.{Client}
use stdiobus_cpp.Async.Client.Destroyed.{responds}
use stdiobus_cpp.Examples.Async
use stdiobus_cpp.Examples.Async.Ends.{async_main-ends}
use stdiobus_cpp.Examples.Async.Ends.Requests.{is_over}
use stdiobus_cpp.Tests.Echo.{echo, echo_contract, has_config}

abbrev idle : Machine echo Console
idle = record {
  world = record { contexts = []; queue = [] };
  heap = λ a. none;
  next = 0;
  user = record { lines = []; stray = false };
}

-- A round after one second and one after six.
abbrev clock : List ℤ
clock = pos 1000000000 ∷ pos 6000000000 ∷ []

abbrev paths : List Bytes
paths = codes "basic" ∷ codes "bus.json" ∷ []

basic_main-ends_example :
    (code : ℕ) × (t : Machine echo Console) × (Basic.main echo paths (pos 0) clock idle
      ≡ some (some code, t))
    × ((j : ℕ) → echo_contract.context t.world j ≡ echo_contract.context idle.world j)
unfolding is_late ◌+ℤ◌
basic_main-ends_example = basic_main-ends echo echo_contract paths (pos 0) clock idle refl

abbrev arguments : List Bytes
arguments = codes "--config" ∷ codes "bus.json" ∷ codes "--unix" ∷ codes "/tmp/bus.sock" ∷ []

abbrev signals : List Bool
signals = false ∷ false ∷ true ∷ []

-- The port 65616 is taken as the port 80.
parse-tcp_example :
    parse (codes "--tcp" ∷ to_string 65616 ∷ codes "--config" ∷ codes "a" ∷ []) no_settings
    ≡ parse (codes "--config" ∷ codes "a" ∷ []) (record no_settings { tcp_port = 80 })
parse-tcp_example = parse-tcp 65616 (codes "--config" ∷ codes "a" ∷ []) no_settings (omega arith)

-- All five requests are made at once; the second round of the loop is at their deadline.
abbrev rounds : List ℤ
rounds = pos 0 ∷ pos 10000000000 ∷ []

abbrev idle_client : Machine echo (Client Console)
idle_client = record {
  world = record { contexts = []; queue = [] };
  heap = λ a. none;
  next = 0;
  user = record {
    requests = none;
    left = λ p. waiting;
    stray = false;
    app = record { lines = []; stray = false };
  };
}

async_main-ends_example :
    (code : ℕ) × (t : Machine echo (Client Console)) × (Async.main echo paths
        (λ i. pos 0)
        rounds
        idle_client
      ≡ some (some code, t))
    × ((j : ℕ) → echo_contract.context t.world j ≡ echo_contract.context idle_client.world j)
unfolding is_over ◌+ℤ◌ responds
async_main-ends_example =
    async_main-ends echo echo_contract paths (λ i. pos 0) rounds (pos 10000000000) idle_client
      (λ i. refl) refl (λ h w. refl)

-- Both listeners, and the log level twice.
abbrev settings : List (Setting Console)
settings =
    log_level_set (pos 0)
    ∷ listen_tcp_set (codes "0.0.0.0") 8080
    ∷ listen_unix_set (codes "/tmp/bus.sock")
    ∷ config_path_set (codes "bus.json")
    ∷ log_level_set (pos 2)
    ∷ []

-- An empty path, for which the kernel creates nothing.
abbrev no_path : List Bytes
no_path = codes "builder" ∷ [] ∷ []

no_path_created :
    (echo.create (c_options (Builder.configured (path_argument no_path)) 0) idle.world).result
    ≡ none
unfolding c_options has_config Builder.configured new
no_path_created = refl

builder_main-no_instance_example :
    let o = Builder.configured (path_argument no_path) in
    (t : Machine echo Console) × (Builder.main echo no_path idle ≡ some (some 1, t))
    × (t.world ≡ (echo.create (c_options o 0) idle.world).world)
    × (t.user
        ≡ add_line (err (codes "Start failed: " ++ message not_initialized)) (built o idle).user)
builder_main-no_instance_example =
    builder_main-no_instance echo echo_contract no_path idle no_path_created
