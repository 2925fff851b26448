-- ===== src/Examples/Builder/Failure.antt =====
-- builder.cpp on a kernel that creates no instance.
use stdiobus_cpp.Prelude.{ℕ, ◌≡◌, refl, none, some, List, [], Bytes, codes, ◌++◌, ==_refl}
use stdiobus_cpp.Prelude.Int.{pos}
use stdiobus_cpp.Error.{is_error, message}
use stdiobus_cpp.Embed.Kernel.{Kernel, Contract}
use stdiobus_cpp.Bus.Machine.{Impl, Machine, update, ◌>>=◌, ◌>>◌}
use stdiobus_cpp.Bus.Lifetime.{c_options}
use stdiobus_cpp.Bus.Calls.{start, is_valid, not_initialized}
use stdiobus_cpp.Bus.Behaviour.{IsClosed, no_instance}
use stdiobus_cpp.Bus.Lifecycle.{built, construct-eq, destruct-no_instance}
use stdiobus_cpp.Bus.Builder.{build}
use stdiobus_cpp.Bus.Scope.{scoped}
use stdiobus_cpp.Examples.Basic.{path_argument}
use stdiobus_cpp.Examples.Console.{Console, err, add_line, print}
use stdiobus_cpp.Examples.Builder.{configured, body, main}

module _ {K : Kernel} where
  body_closed :
      (a : ℕ) (s : Machine K Console)
      → IsClosed (some a) s
      → body K (some a) s
        ≡ some (
          some 1,
          record s {
            user = add_line (err (codes "Start failed: " ++ message not_initialized)) s.user;
          },
        )
  unfolding body is_valid start is_error print
  body_closed a s closed =
      rw ((no_instance K (some a) s (pos 0) [] closed).0, body, start, ◌>>=◌) refl

-- When the kernel creates no instance, builder.cpp does not print its "Failed to create bus": the
-- Bus counts as valid, the start fails, and the line that it adds to what the callbacks of create
-- printed is that of the failed start; the exit code is 1 and the kernel is not called again.
pub builder_main-no_instance :
    (K : Kernel) (L : Contract K) (argv : List Bytes) (s : Machine K Console)
    → (K.create (c_options (configured (path_argument argv)) s.next) s.world).result ≡ none
    → (t : Machine K Console) × (main K argv s ≡ some (some 1, t))
      × (t.world ≡ (K.create (c_options (configured (path_argument argv)) s.next) s.world).world)
      × (t.user
          ≡ add_line
              (err (codes "Start failed: " ++ message not_initialized))
              (built (configured (path_argument argv)) s).user)
unfolding main scoped build
builder_main-no_instance K L argv s e =
    let o = configured (path_argument argv) in
    let s1 = built o s in
    let s2 : Machine K Console = record s1 {
      user = add_line (err (codes "Start failed: " ++ message not_initialized)) s1.user;
    } in
    let impl : Impl Console = record {
      handle = (K.create (c_options o s.next) s.world).result;
      options = o;
    } in
    let found : s1.heap s.next ≡ some impl = rw (==_refl s.next) refl in
    (
      record s2 { heap = update s2.heap s.next none },
      rw
          (
            construct-eq L o s,
            main,
            scoped,
            build,
            ◌>>=◌,
            body_closed s.next s1 (impl, found, e),
            ◌>>◌,
            destruct-no_instance L s2 s.next impl found e,
          )
          refl,
      refl,
      refl,
    )
