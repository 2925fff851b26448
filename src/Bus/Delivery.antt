-- ===== src/Bus/Delivery.antt =====
-- The calls of an instance and the delivery of their callbacks, under the kernel's contract.
use mathlib.Core.Option
use mathlib.Core.Option.{some-injective}
use stdiobus_cpp.Prelude.{ℕ, ◌≡◌, refl, ap, ◌∙◌, some, List, [], ◌∷◌, All}
use stdiobus_cpp.Embed.Kernel.{Kernel, Reply, Callback, Carries}
use stdiobus_cpp.Bus.Machine.{Impl, Machine, dispatch, run_callback, run_callbacks, call}

module _ {U : Type 0} where
  -- What callbacks do to the application's state, one after the other.
  unfoldable pub deliver : Impl U → List Callback → U → U
  deliver impl [] u = u
  deliver impl (c ∷ cs) u = deliver impl cs (dispatch c.event impl u)

module _ {K : Kernel} {U : Type 0} where
  run_callback-eq :
      (s : Machine K U) (a : ℕ) (impl : Impl U) (c : Callback)
      → s.heap a ≡ some impl
      → some c.user_data ≡ some a
      → run_callback c s ≡ some (tt, record s { user = dispatch c.event impl s.user })
  unfolding run_callback
  run_callback-eq s a impl c found carries =
      let here : s.heap c.user_data ≡ some impl = ap s.heap (some-injective _ _ carries) ∙ found in
      ap (Option.map (λ i. (tt, record s { user = dispatch c.event i s.user }))) here

  run_callbacks-eq :
      (s : Machine K U) (a : ℕ) (impl : Impl U) (cs : List Callback)
      → s.heap a ≡ some impl
      → All (λ c. some c.user_data ≡ some a) cs
      → run_callbacks cs s ≡ some (tt, record s { user = deliver impl cs s.user })
  unfolding run_callbacks deliver
  run_callbacks-eq s a impl [] found carries = refl
  run_callbacks-eq s a impl (c ∷ cs) found carries =
      rw (run_callback-eq s a impl c found carries.0, run_callbacks)
        (run_callbacks-eq (record s { user = dispatch c.event impl s.user }) a impl cs found
          carries.1)

  -- The machine after a call `f` whose callbacks go to `impl`.
  abbrev pub after : {A : Type 0} → Machine K U → Impl U → (K.World → Reply K.World A) → Machine K U
  after s impl f = record s {
    world = (f s.world).world;
    user = deliver impl (f s.world).callbacks s.user;
  }

  pub call-eq :
      {A : Type 0} (s : Machine K U) (a : ℕ) (impl : Impl U) (f : K.World → Reply K.World A)
      → s.heap a ≡ some impl
      → Carries (some a) (f s.world)
      → call f s ≡ some ((f s.world).result, after s impl f)
  unfolding call
  call-eq s a impl f found carries = ap (Option.map (λ p. ((f s.world).result, p.1))) (
      run_callbacks-eq (record s { world = (f s.world).world }) a impl (f s.world).callbacks found
        carries)
