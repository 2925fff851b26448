-- ===== src/Bus/Program/Steps.antt =====
-- The actions of a program one by one: constructor, destructor, moves and operations.
use stdiobus_cpp.Prelude.{
  subst, fun_ext, ℕ, ◌≡◌, ◌≢◌, refl, none, some, arith, ◌==◌, Bool-cases, inl, inr, ==_ne,
}
use stdiobus_cpp.Embed.Kernel.{Kernel, Contract}
use stdiobus_cpp.Types.{Options}
use stdiobus_cpp.Bus.Machine.{Bus, Machine, update, ◌>>=◌, free}
use stdiobus_cpp.Bus.Lifetime.{move_construct, move_assign, reset}
use stdiobus_cpp.Bus.Lifecycle.{construct-eq, deref-eq}
use stdiobus_cpp.Bus.Program.{
  Program, Action, Call, construct_at, destruct_at, move_new, move_into, call_at, perform,
}
use stdiobus_cpp.Bus.Program.Sound.{IsSound, IsAllowed, IsTidy, Overwritable, Good}
use stdiobus_cpp.Bus.Program.Construct.{constructed, constructed-IsSound, constructed-NoLeak}
use stdiobus_cpp.Bus.Program.Release.{released-IsSound, none-IsVacant, null-IsVacant, IsVacant-eq}
use stdiobus_cpp.Bus.Program.Destruct.{good_destruct, freed_NoLeak}
use stdiobus_cpp.Bus.Program.Moves.{moved, moved-IsSound}
use stdiobus_cpp.Bus.Program.Operations.{run_sound, Kept-IsSound, Kept-NoLeak}

module _ {K : Kernel} {U : Type 0} (L : Contract K) where
  good_construct :
      (i : ℕ) (o : Options U) (p : Program K U)
      → IsSound L p
      → p.slots i ≡ none
      → Good L (construct_at i o) p (Unit {0})
  unfolding perform
  good_construct i o p v free = (
    constructed L i o p v free,
    rw (construct-eq L o p.machine, perform) refl,
    constructed-IsSound L i o p v free,
    λ _. constructed-NoLeak L i o p v free,
  )

  good_call :
      (i : ℕ) (c : Call U) (p : Program K U) (bus : Bus)
      → IsSound L p
      → p.slots i ≡ some bus
      → Good L (call_at i c) p (Unit {0})
  unfolding perform
  good_call i c p bus v e =
      let (t, eq, k) = run_sound L p v i bus e c in
      (
        record p { machine = t },
        rw (e, perform, eq) refl,
        Kept-IsSound L p t k v,
        λ _. Kept-NoLeak L p t k,
      )

  good_move_new :
      (i j : ℕ) (p : Program K U) (other : Bus)
      → IsSound L p
      → p.slots i ≡ none
      → p.slots j ≡ some other
      → Good L (move_new i j) p (Unit {0})
  unfolding perform
  good_move_new i j p other v e f =
      let vacant = IsVacant-eq (p.slots i) none e none-IsVacant in
      let differ : i ≢ j = λ x. ground arith in
      (
        moved L i j other p v vacant f differ,
        rw (f, perform, move_construct) refl,
        moved-IsSound L i j other p v vacant f differ,
        λ _ n. n,
      )

  good_move_null :
      (i j : ℕ) (p : Program K U) (other : Bus)
      → IsSound L p
      → p.slots i ≡ some none
      → p.slots j ≡ some other
      → i ≢ j
      → Good L (move_into i j) p (Overwritable i j p)
  unfolding perform
  good_move_null i j p other v e f differ =
      let vacant = IsVacant-eq (p.slots i) (some none) e null-IsVacant in
      (
        moved L i j other p v vacant f differ,
        rw (e, perform, f, ==_ne i j differ) refl,
        moved-IsSound L i j other p v vacant f differ,
        λ _ n. n,
      )

  -- The machine after `i` gave up the Impl at `a`, and the program in between.
  abbrev without : Program K U → ℕ → Machine K U
  without p a = record (p.machine) { heap = update p.machine.heap a none }

  abbrev emptied : Program K U → ℕ → ℕ → Program K U
  emptied p i a = record { machine = without p a; slots = update p.slots i (some none) }

  emptied-IsSound :
      (i a : ℕ) (p : Program K U)
      → IsSound L p
      → p.slots i ≡ some (some a)
      → IsSound L (emptied p i a)
  emptied-IsSound i a p v e =
      released-IsSound L i a (some none) null-IsVacant p v e (without p a) (λ b. refl) refl
        (λ h b ne c. c)

  abbrev overwritten : Program K U → ℕ → ℕ → ℕ → Bus → Program K U
  overwritten p i j a other = record {
    machine = without p a;
    slots = update (update p.slots i (some other)) j (some none);
  }

  overwritten-IsSound :
      (i j a : ℕ) (other : Bus) (p : Program K U)
      → IsSound L p
      → p.slots i ≡ some (some a)
      → p.slots j ≡ some other
      → i ≢ j
      → IsSound L (overwritten p i j a other)
  overwritten-IsSound i j a other p v e f differ =
      subst (λ slots. IsSound L (record { machine = without p a; slots = slots }))
        (fun_ext λ k. ground arith)
        (moved-IsSound L i j other (emptied p i a) (emptied-IsSound i a p v e)
          (IsVacant-eq _ (some none) (ground arith) null-IsVacant) (ground arith) differ)

  good_move_over :
      (i j a : ℕ) (p : Program K U) (other : Bus)
      → IsSound L p
      → p.slots i ≡ some (some a)
      → p.slots j ≡ some other
      → i ≢ j
      → Good L (move_into i j) p (Overwritable i j p)
  unfolding perform free
  good_move_over i j a p other v e f differ =
      let (impl, g) = v.stored i a e in
      (
        overwritten p i j a other,
        rw (e, perform, f, ==_ne i j differ, move_assign, reset, ◌>>=◌, deref-eq p.machine a impl g)
            refl,
        overwritten-IsSound i j a other p v e f differ,
        λ tidy.
            freed_NoLeak L p a impl (update (update p.slots i (some other)) j (some none)) g
              (tidy differ a impl e g),
      )

  good_move_differ :
      (i j : ℕ) (p : Program K U) (this other : Bus)
      → IsSound L p
      → p.slots i ≡ some this
      → p.slots j ≡ some other
      → i ≢ j
      → Good L (move_into i j) p (Overwritable i j p)
  good_move_differ i j p none other v e f = good_move_null i j p other v e f
  good_move_differ i j p (some a) other v e f = good_move_over i j a p other v e f

  good_move_into :
      (i j : ℕ) (p : Program K U) (this other : Bus)
      → IsSound L p
      → p.slots i ≡ some this
      → p.slots j ≡ some other
      → Good L (move_into i j) p (Overwritable i j p)
  unfolding perform
  good_move_into i j p this other v e f = elim (Bool-cases (i == j)) [
    | inl x ↦ (p, rw (e, perform, f, x) refl, v, λ _ n. n)
    | inr x ↦ good_move_differ i j p this other v e f (ground arith)
  ]

  -- In a sound program every allowed action is defined and leaves a sound program; if it does not
  -- move-assign onto a Bus that has an instance, it leaks no instance either.
  pub perform-IsSound :
      (action : Action U) (p : Program K U)
      → IsSound L p
      → IsAllowed action p
      → Good L action p (IsTidy action p)
  perform-IsSound (construct_at i o) p v free = good_construct i o p v free
  perform-IsSound (destruct_at i) p v (bus, e) = good_destruct L i p bus v e
  perform-IsSound (move_new i j) p v (e, (other, f)) = good_move_new i j p other v e f
  perform-IsSound (move_into i j) p v ((this, e), (other, f)) =
      good_move_into i j p this other v e f
  perform-IsSound (call_at i c) p v (bus, e) = good_call i c p bus v e
