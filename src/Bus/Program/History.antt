-- ===== src/Bus/Program/History.antt =====
-- Histories of a program that starts with no Bus and no instance.
use stdiobus_cpp.Prelude.{ℕ, ◌≡◌, sym, ◌∙◌, subst, none, some, some-injective}
use stdiobus_cpp.Embed.Kernel.{Kernel, Contract}
use stdiobus_cpp.Bus.Program.{Program, Action, perform}
use stdiobus_cpp.Bus.Program.Sound.{IsSound, IsAllowed, IsTidy, NoLeak}
use stdiobus_cpp.Bus.Program.Steps.{perform-IsSound}

module _ {K : Kernel} {U : Type 0} where
  -- The programs that a sequence of actions leads to, each allowed by `Allowed` where it is made.
  pub data Reach (Allowed : Action U → Program K U → Type 0) (p : Program K U)
      : Program K U → Type 0 where
    here : Reach Allowed p p
    next :
        {q r : Program K U} (action : Action U)
        → Reach Allowed p q
        → Allowed action q
        → perform K action q ≡ some r
        → Reach Allowed p r

  -- No Bus variable, no Impl.
  pub record IsFresh (p : Program K U) : Type 0 where
    pub no_slots : (i : ℕ) → p.slots i ≡ none
    pub no_impls : (a : ℕ) → p.machine.heap a ≡ none

  abbrev pub IsTidyAllowed : Action U → Program K U → Type 0
  IsTidyAllowed action p = IsAllowed action p × IsTidy action p

module _ {K : Kernel} {U : Type 0} (L : Contract K) where
  IsFresh-IsSound : (p : Program K U) → IsFresh p → IsSound L p
  IsFresh-IsSound p f = record {
    unique = λ i j a e _. cc (f.no_slots i);
    stored = λ i a e. absurd (cc (f.no_slots i));
    pointed = λ a impl e. absurd (cc (f.no_impls a));
    below = λ a impl e. cc (f.no_impls a);
    opened = λ a h impl e _. cc (f.no_impls a);
  }

  Reach-IsSound : {p q : Program K U} → IsSound L p → Reach IsAllowed p q → IsSound L q
  Reach-IsSound v here = v
  Reach-IsSound v (next {q} {r} action before allowed done) =
      let (r', eq, v', _) = perform-IsSound L action q (Reach-IsSound v before) allowed in
      subst (IsSound L) (some-injective r' r (sym eq ∙ done)) v'

  -- After any allowed history, each further allowed action is defined and leaves a sound program: no
  -- call meets a null or dangling pointer, every callback finds the Impl it belongs to, no two
  -- variables hold one Impl, and every instance that an Impl holds exists in the kernel.
  pub Reach-perform :
      {p q : Program K U}
      → IsFresh p
      → Reach IsAllowed p q
      → (action : Action U) → IsAllowed action q
      → (r : Program K U) × (perform K action q ≡ some r) × IsSound L r
  Reach-perform {p} {q} f r action allowed =
      let (r', eq, v, _) =
        perform-IsSound L action q (Reach-IsSound (IsFresh-IsSound p f) r) allowed in
      (r', eq, v)

  Reach-tidy :
      {p q : Program K U}
      → IsSound L p
      → NoLeak L p
      → Reach IsTidyAllowed p q
      → IsSound L q × NoLeak L q
  Reach-tidy v n here = (v, n)
  Reach-tidy v n (next {q} {r} action before (allowed, tidy) done) =
      let (v', n') = Reach-tidy v n before in
      let (r', eq, w, m) = perform-IsSound L action q v' allowed in
      subst (λ s. IsSound L s × NoLeak L s) (some-injective r' r (sym eq ∙ done)) (w, m tidy n')

  -- After a history in which no move assignment overwrites a Bus with an instance, a kernel that
  -- starts with no instance has one only where a Bus variable holds the Impl that owns it. So once
  -- all variables are gone, moved from or null, no instance is left.
  pub Reach-NoLeak :
      {p q : Program K U}
      → IsFresh p
      → ((h : ℕ) → L.context p.machine.world h ≡ none)
      → Reach IsTidyAllowed p q
      → (h a : ℕ) → L.context q.machine.world h ≡ some a
      → (i : ℕ) × (q.slots i ≡ some (some a))
  Reach-NoLeak {p} {q} f none_yet r h a e =
      let (v, n) = Reach-tidy (IsFresh-IsSound p f) (λ j b x. absurd (cc (none_yet j))) r in
      let (impl, g, _) = n h a e in v.pointed a impl g
