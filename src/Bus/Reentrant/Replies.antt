-- ===== src/Bus/Reentrant/Replies.antt =====
-- Callbacks that call the Bus again, at any depth, and callbacks that make no call of it.

use stdiobus_cpp.Prelude.{ℕ, zero, suc, ◌≡◌, ◌≢◌, refl, subst, Option, List}
use stdiobus_cpp.Bus.Reentrant.{Kernel, Site, Outcome, done, undefined, deeper, trampoline, perform}
use stdiobus_cpp.Bus.Reentrant.Callbacks
use stdiobus_cpp.Bus.Reentrant.Callbacks.{Slot, Notice, Operation, Answer, gave, Code}
use stdiobus_cpp.Bus.Reentrant.Safe.{
  Kept, Good, AllMeet, IsKept, Kept, Answered, trampoline-Good, operate-Good,
}
use stdiobus_cpp.Bus.Reentrant.Interface.{Contract}

-- The calls that pass a message on or read the state.
abbrev pub IsReply : Operation → Type 0
IsReply (Callbacks.send m) = Unit {0}
IsReply Callbacks.state = Unit {0}
IsReply Callbacks.start = ⊥
IsReply (Callbacks.step n) = ⊥
IsReply (Callbacks.stop n) = ⊥

-- No call.
abbrev pub IsNone : Operation → Type 0
IsNone op = ⊥

pub good_result :
    {A : Type 0} (Q : A → Type 0) (o : Outcome A) → Good ⊥ Q o → (a : A) × (o ≡ done a) × Q a
good_result Q (done a) good = (a, refl, good)
good_result Q undefined good = absurd good
good_result Q deeper good = absurd good

module _ {K : Kernel} {U : Type 0} (contract : Contract K) (address h : ℕ)
    (handlers : Slot → Option (Notice → Code U)) (P : U → Type 0) where
  pub perform-Good :
      AllMeet IsReply P handlers
      → (depth : ℕ) (active : List Slot) (op : Operation) (s : Site K U)
      → Kept contract address h handlers P (Unit {0}) s
      → Good
          (Unit {0})
          (Answered contract address h handlers P (Unit {0}))
          (perform address depth active op s)
  unfolding perform
  perform-Good meet zero active op s kept = tt
  perform-Good meet (suc depth) active op s kept =
      operate-Good contract address h handlers P (Unit {0})
        (trampoline address (perform address depth) active) s kept
        (trampoline-Good contract address h handlers P (Unit {0}) IsReply meet
          (perform address depth)
          (λ active op allowed t kept_t. perform-Good meet depth active op t kept_t) active)
        op

  -- For a kernel of the contract, which may also call back in a send, a Bus with its instance, and
  -- callbacks that call nothing but send and state and keep a property of the application's state:
  -- no operation is undefined, however deep the calls nest, and one that is done leaves the Bus with
  -- its instance, the instance with the Impl as its context, the callbacks as they were, and the
  -- property.
  pub perform-IsKept :
      AllMeet IsReply P handlers
      → (depth : ℕ) (active : List Slot) (op : Operation) (s : Site K U)
      → IsKept contract.context address h handlers s
      → P s.user
      → (perform address depth active op s ≢ undefined)
        × ((a : Answer) (t : Site K U)
            → perform address depth active op s ≡ done (a, t)
            → IsKept contract.context address h handlers t × P t.user)
  perform-IsKept meet depth active op s kept property =
      let good = perform-Good meet depth active op s (kept, property) in
      (
        λ e. subst (Good (Unit {0}) (Answered contract address h handlers P (Unit {0}))) e good,
        λ a t e. subst (Good (Unit {0}) (Answered contract address h handlers P (Unit {0}))) e good,
      )

  pub silent_depth-Good :
      AllMeet IsNone P handlers
      → (depth : ℕ) (active : List Slot) (op : Operation) (s : Site K U)
      → Kept contract address h handlers P ⊥ s
      → Good ⊥ (Answered contract address h handlers P ⊥) (perform address (suc depth) active op s)
  unfolding perform
  silent_depth-Good meet depth active op s kept =
      operate-Good contract address h handlers P ⊥
        (trampoline address (perform address depth) active) s kept
        (trampoline-Good contract address h handlers P ⊥ IsNone meet (perform address depth)
          (λ active op called t kept_t. absurd called) active)
        op
