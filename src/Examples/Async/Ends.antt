-- ===== src/Examples/Async/Ends.antt =====
-- async.cpp from its start to its end.
pub mod Ready
pub mod Requests
use stdiobus_cpp.Prelude.{
  ℕ, ◌≡◌, refl, ap, subst, ◌∙◌, Bool, true, false, Option, none, some, List, [], ◌∷◌, ◌++◌, Bytes,
  codes, arith, ◌==◌, if◌then◌else◌, Option-cases, inl, inr,
}
use stdiobus_cpp.Prelude.Int.{ℤ, pos, leb_ℤ, ◌+ℤ◌}
use stdiobus_cpp.Error.{is_error, message}
use stdiobus_cpp.Embed.Kernel.{Kernel, Contract}
use stdiobus_cpp.Types.{Options, default_options}
use stdiobus_cpp.Bus.Machine.{Bus, Machine, update, ◌>>=◌, ◌>>◌, pure}
use stdiobus_cpp.Bus.Lifetime.{c_options}
use stdiobus_cpp.Bus.Calls.{is_valid, not_initialized}
use stdiobus_cpp.Bus.Behaviour.{Owns, IsClosed, no_instance}
use stdiobus_cpp.Bus.Lifecycle.{destruct-no_instance}
use stdiobus_cpp.Async.Pending
use stdiobus_cpp.Async.Pending.{AsyncState}
use stdiobus_cpp.Async.Pending.Invariant.{IsValid}
use stdiobus_cpp.Async.Client.{Client, lift, on_app, start, destruct, destroy_members, abandon_all}
use stdiobus_cpp.Async.Client.Session.{Session}
use stdiobus_cpp.Async.Client.Hooked.{hooked}
use stdiobus_cpp.Async.Client.Construct.{construct_lem, construct_from_path-eq}
use stdiobus_cpp.Async.Client.Destroyed.{responds, destruct_lem}
use stdiobus_cpp.Async.Client.Runs.{
  Runs, Runs-pure, Runs-bind, Runs-then, Runs-if, Runs-weaken, Runs-fact,
}
use stdiobus_cpp.Async.Client.Runs.Calls.{Runs-start, Settles-Stays}
use stdiobus_cpp.Examples.Console.{Console, out, err, add_line}
use stdiobus_cpp.Examples.Basic.{path_argument}
use stdiobus_cpp.Examples.Async.{ten_seconds, print_line, send_requests, run, body, main, end_scope}
use stdiobus_cpp.Examples.Async.Sent.{Sent, start-Sent, settle-Sent}
use Requests.{
  is_over, Runs-print_line, send_requests-Runs, Looped, pump_until_ready-Runs, finish-Runs,
}

module _ {K : Kernel} (L : Contract K) (o : Options Console) (a h : ℕ) (bound : ℤ) (time : ℕ → ℤ)
    (due : (i : ℕ) → leb_ℤ (time i +ℤ ten_seconds) bound ≡ true) (clock : List ℤ) where
  -- What the block ends with: an exit code, once the clock has come to `bound`.
  abbrev Final : Option ℕ → AsyncState → Type 0
  Final result st = IsValid st × (is_over bound clock ≡ true → (code : ℕ) × (result ≡ some code))

  run-Runs : Runs L o a h (Sent bound 0) Final (run K (some a) time clock)
  unfolding run
  run-Runs =
      Runs-then L o a h (Sent bound 0)
        (Runs-print_line L o a h bound (Sent bound 0) (out (codes "Sending 5 async requests...")))
        (Runs-bind L o a h _ (send_requests-Runs L o a h bound time due 5 0) (λ fs.
          Runs-fact L o a h (λ x.
            Runs-bind L o a h (Looped L o a h bound fs clock)
              (pump_until_ready-Runs L o a h bound fs x.0 x.1 clock)
              (λ ended.
                Runs-if L o a h ended
                  (λ e.
                    Runs-weaken L o a h (λ st y. (y.0, y.1 e))
                      (λ code st y. (y.0.valid, λ _. (0, y.1))) (finish-Runs L o a h bound fs))
                  (λ e. Runs-pure L o a h none (λ st y. (y.0.valid, λ over. cc (e, y.2 over))))))))

  body-Runs : Runs L o a h (Sent bound 0) Final (body K time clock (some a))
  unfolding body is_valid
  body-Runs =
      Runs-bind L o a h (λ _. Sent bound 0)
        (Runs-start L o a h (Sent bound 0) (Settles-Stays (Sent bound 0) (settle-Sent bound 0)))
        (λ error.
          Runs-if L o a h (is_error error)
            (λ _.
              Runs-then L o a h (Sent bound 0)
                (Runs-print_line L o a h bound (Sent bound 0)
                  (err (codes "Failed to start: " ++ message error)))
                (Runs-pure L o a h (some 1) (λ st v. (v.valid, λ _. (1, refl)))))
            (λ _. run-Runs))

module _ {K : Kernel} (L : Contract K) where
  -- The end of the scope of an AsyncBus whose Bus has no instance.
  end_scope_closed :
      (a : ℕ) (s : Machine K (Client Console)) (st : AsyncState)
      → IsClosed (some a) s
      → s.user.requests ≡ some st
      → (t : Machine K (Client Console)) × (end_scope K (some a) s ≡ some (tt, t))
        × (t.world ≡ s.world)
  unfolding end_scope destruct destroy_members
  end_scope_closed a s st (impl, found, null) e =
      let s1 : Machine K (Client Console) = record s {
        user = record (s.user) {
          requests = none;
          left = abandon_all st.pending st.promises;
          stray = false;
        };
      } in
      (
        record s1 { heap = update s1.heap a none },
        rw
            (
              e,
              end_scope,
              destruct,
              ◌>>◌,
              ◌>>=◌,
              destroy_members,
              destruct-no_instance L s1 a impl found null,
            )
            refl,
        refl,
      )

  -- The end of the scope of an AsyncBus with an instance, on a kernel that then passes on no
  -- response.
  end_scope_owned :
      (o : Options Console) {s : Machine K (Client Console)} {a h : ℕ} {st : AsyncState}
      → Owns L s a h (record { handle = some h; options = hooked o })
      → s.user.requests ≡ some st
      → IsValid st
      → responds K h s.world ≡ false
      → (t : Machine K (Client Console)) × (end_scope K (some a) s ≡ some (tt, t))
        × ((j : ℕ) → L.context t.world j ≡ (if h == j then none else L.context s.world j))
  unfolding end_scope
  end_scope_owned o {s} {a} {h} {st} own e valid silent =
      let s1 : Machine K (Client Console) = record s { user = record (s.user) { stray = false } } in
      let own1 : Owns L s1 a h (record { handle = some h; options = hooked o }) = record {
        stored = own.stored;
        handle = refl;
        context = own.context;
      } in
      let (t, done, context, _, _, stray) = destruct_lem L o own1 e valid in
      (t, rw (done, end_scope, stray, silent) refl, context)

  -- Without an instance start fails, and the block ends with 1.
  body_closed :
      (a : ℕ) (s : Machine K (Client Console)) (time : ℕ → ℤ) (clock : List ℤ)
      → IsClosed (some a) s
      → body K time clock (some a) s
        ≡ some (
          some 1,
          record s {
            user =
                on_app
                  (add_line (err (codes "Failed to start: " ++ message not_initialized)))
                  s.user;
          },
        )
  unfolding body is_valid start is_error print_line
  body_closed a s time clock closed =
      rw ((no_instance K (some a) s (pos 0) [] closed).0, body, start, ◌>>=◌) refl

  -- The construction, the block and the destructor of the AsyncBus at `a` in the machine `t`.
  Ends : (ℕ → Option ℕ) → (ℕ → ℤ) → List ℤ → ℕ → Machine K (Client Console) → Type 0
  Ends context time clock a t =
      (code : ℕ) × (u : Machine K (Client Console)) × (v : Machine K (Client Console)) × (body K
          time clock (some a) t
        ≡ some (some code, u))
      × (end_scope K (some a) u ≡ some (tt, v))
      × ((j : ℕ) → L.context v.world j ≡ context j)

  owned-Ends :
      (o : Options Console) (s t : Machine K (Client Console)) (h : ℕ) (bound : ℤ) (time : ℕ → ℤ)
      (clock : List ℤ)
      → ((i : ℕ) → leb_ℤ (time i +ℤ ten_seconds) bound ≡ true)
      → is_over bound clock ≡ true
      → (K.create (c_options (lift o) s.next) s.world).result ≡ some h
      → t.world ≡ (K.create (c_options (lift o) s.next) s.world).world
      → ((w : K.World) → responds K h w ≡ false)
      → Session L o s.next h (Sent bound 0) t
      → Ends (L.context s.world) time clock s.next t
  unfolding Ends c_options
  owned-Ends o s t h bound time clock due over made world silent w =
      let (r, u, run, v, same) = body-Runs L o s.next h bound time due clock t w in
      let (st, e, (valid, ends)) = v.holds in
      let (code, f) = ends over in
      let (z, done, context) = end_scope_owned o v.own e valid (silent u.world) in
      (
        code,
        u,
        z,
        subst (λ x. body K time clock (some s.next) t ≡ some (x, u)) f run,
        done,
        λ j.
            let created = L.create_context (c_options (lift o) s.next) s.world h made j in
            let fresh = L.create_fresh (c_options (lift o) s.next) s.world h made in
            let kept = same j ∙ ap (λ x. L.context x j) world in
            ground (arith, context j, kept, created, fresh),
      )

  closed-Ends :
      (s t : Machine K (Client Console)) (o : Options Console) (time : ℕ → ℤ) (clock : List ℤ)
      → (K.create (c_options (lift o) s.next) s.world).result ≡ none
      → t.world ≡ (K.create (c_options (lift o) s.next) s.world).world
      → t.user.requests ≡ some Pending.start
      → IsClosed (some s.next) t
      → Ends (L.context s.world) time clock s.next t
  unfolding Ends c_options
  closed-Ends s t o time clock none_made world e closed =
      let (z, done, same) = end_scope_closed s.next _ Pending.start closed e in
      (
        1,
        _,
        z,
        body_closed s.next t time clock closed,
        done,
        λ j.
            ap (λ x. L.context x j) (same ∙ world)
            ∙ L.create_null (c_options (lift o) s.next) s.world none_made j,
      )

-- async.cpp, when every deadline of its requests is at `bound` or before and some round of its loop
-- reads the clock at `bound` or later, on any kernel that passes on no response while an instance is
-- stopped and destroyed by a destructor: it runs without an undefined step, its message handler uses
-- no destroyed member, no future throws, it ends with an exit code, and then the kernel has the
-- instances that it had before.
pub async_main-ends :
    (K : Kernel) (L : Contract K) (argv : List Bytes) (time : ℕ → ℤ) (clock : List ℤ) (bound : ℤ)
    (s : Machine K (Client Console))
    → ((i : ℕ) → leb_ℤ (time i +ℤ ten_seconds) bound ≡ true)
    → is_over bound clock ≡ true
    → ((h : ℕ) (w : K.World) → responds K h w ≡ false)
    → (code : ℕ) × (t : Machine K (Client Console)) × (main K argv time clock s
        ≡ some (some code, t))
      × ((j : ℕ) → L.context t.world j ≡ L.context s.world j)
unfolding main Ends
async_main-ends K L argv time clock bound s due over silent =
    let o = record (default_options Console) { config_path = path_argument argv } in
    let (t, made, world, e, opened, closed) = construct_lem L o s in
    let begins = construct_from_path-eq K (path_argument argv) s ∙ made in
    let (code, u, v, run, done, same) : Ends L (L.context s.world) time clock s.next t =
      elim (Option-cases (K.create (c_options (lift o) s.next) s.world).result) [
        | inl x ↦ closed-Ends L s t o time clock x world e (closed x)
        | inr (h, x) ↦
            owned-Ends L o s t h bound time clock due over x world (silent h)
              (record { own = opened h x; holds = (Pending.start, e, start-Sent bound) })
      ] in
    (code, v, rw (begins, main, ◌>>=◌, run, ◌>>◌, done) refl, same)
