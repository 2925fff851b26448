-- ===== src/Bus/Scope.antt =====
-- A Bus variable of automatic storage: construction, the code of its block, and the destructor at
-- the end of the block.
use stdiobus_cpp.Prelude.{
  ℕ, ◌≡◌, refl, sym, ◌∙◌, subst, fun_ext, Bytes, Option, none, some, arith, ==_refl, Option-cases,
  inl, inr,
}
use stdiobus_cpp.Embed.Kernel.{Kernel, Contract}
use stdiobus_cpp.Types.{Options, default_options}
use stdiobus_cpp.Bus.Machine.{Bus, Machine, M, update, ◌>>=◌, ◌>>◌, pure}
use stdiobus_cpp.Bus.Lifetime.{construct, construct_from_path, destruct, c_options}
use stdiobus_cpp.Bus.Behaviour.{Owns}
use stdiobus_cpp.Bus.Lifecycle.{construct-eq, destruct-eq, destruct-no_instance, built, destroyed}
use stdiobus_cpp.Bus.Program.Operations.{Kept}
use stdiobus_cpp.Bus.Program.Release.{destroyed_context}
use stdiobus_cpp.Bus.Safe.{Stored}
use stdiobus_cpp.Bus.Returns.{Returns}
use stdiobus_cpp.Bus.Configuration.{construct_from_path-construct}

-- The block returns `none` while it is still running, and the destructor is still to come.
unfoldable pub scoped :
    (K : Kernel) {U B : Type 0} → M K U Bus → (Bus → M K U (Option B)) → M K U (Option B)
unfolding destruct
scoped K make body = do
  bus ← make
  result ← body bus
  elim result [ none ↦ pure none | some b ↦ (do destruct K bus; pure (some b)) ]

module _ {K : Kernel} {U : Type 0} (L : Contract K) where
  built_Stored : (o : Options U) (s : Machine K U) → Stored L s.next (built o s)
  unfolding c_options
  built_Stored o s = record {
    impl = record { handle = (K.create (c_options o s.next) s.world).result; options = o };
    found = rw (==_refl s.next) refl;
    known = λ h e. L.create_context (c_options o s.next) s.world h e h ∙ rw (==_refl h) refl;
  }

  -- The destructor of a Bus whose Impl has the handle that create gave.
  destruct-built :
      (o : Options U) (s t : Machine K U)
      → Kept L (built o s) t
      → (u : Machine K U) × (destruct K (some s.next) t ≡ some (tt, u))
        × ((j : ℕ) → L.context u.world j ≡ L.context s.world j)
  unfolding c_options built_Stored
  destruct-built o s t k =
      let v = built_Stored o s in
      let (impl, f, same) = k.forth s.next v.impl v.found in
      elim (Option-cases (K.create (c_options o s.next) s.world).result) [
        | inl e ↦ (
          record t { heap = update t.heap s.next none },
          destruct-no_instance L t s.next impl f (same ∙ e),
          λ j. k.context j ∙ L.create_null (c_options o s.next) s.world e j,
        )
        | inr (h, e) ↦
            let own : Owns L t s.next h impl = record {
              stored = f;
              handle = same ∙ e;
              context = k.context h ∙ v.known h e;
            } in
            (
              destroyed L t s.next h impl,
              destruct-eq L own,
              λ j.
                  let gone = destroyed_context L t s.next h impl own j in
                  let made = L.create_context (c_options o s.next) s.world h e j in
                  let fresh = L.create_fresh (c_options o s.next) s.world h e in
                  ground (arith, gone, k.context j, made, fresh),
            )
      ]

  -- A Bus variable whose block is safe: the block returns, and once it is done the kernel has the
  -- same instances as before the declaration, whichever way the block ended.
  pub scoped_lem :
      {B : Type 0} (P : Option B → Type 0) (o : Options U) (body : Bus → M K U (Option B))
      (s : Machine K U)
      → ((a : ℕ) → Returns L a P (body (some a)))
      → (r : Option B) × (t : Machine K U) × (scoped K (construct K o) body s ≡ some (r, t))
        × P r
        × ((b : B) → r ≡ some b → (j : ℕ) → L.context t.world j ≡ L.context s.world j)
  unfolding scoped
  scoped_lem P o body s safe =
      let (r, t, e, k, p) = safe s.next (built o s) (built_Stored o s) in
      let start = construct-eq L o s in
      elim (Option-cases r) [
        | inl x ↦ (r, t, rw (start, scoped, ◌>>=◌, e, x) refl, p, λ b y. cc (x, y))
        | inr (b, x) ↦
            let (u, f, same) = destruct-built o s t k in
            (r, u, rw (start, scoped, ◌>>=◌, e, x, ◌>>◌, f) refl, p, λ c y j. same j)
      ]

  -- The same for a Bus that is constructed from a path.
  pub scoped_path :
      {B : Type 0} (P : Option B → Type 0) (path : Bytes) (body : Bus → M K U (Option B))
      (s : Machine K U)
      → ((a : ℕ) → Returns L a P (body (some a)))
      → (r : Option B) × (t : Machine K U) × (scoped K (construct_from_path K path) body s
          ≡ some (r, t))
        × P r
        × ((b : B) → r ≡ some b → (j : ℕ) → L.context t.world j ≡ L.context s.world j)
  scoped_path P path body s safe =
      subst
        (λ make.
          (r : Option _) × (t : Machine K U) × (scoped K make body s ≡ some (r, t))
          × P r
          × ((b : _) → r ≡ some b → (j : ℕ) → L.context t.world j ≡ L.context s.world j))
        (sym (fun_ext (construct_from_path-construct K {U = U} path)))
        (scoped_lem P (record (default_options U) { config_path = path }) body s safe)
