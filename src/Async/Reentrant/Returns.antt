-- ===== src/Async/Reentrant/Returns.antt =====
-- An application that uses an AsyncBus, also from the callbacks of its Bus.
use stdiobus_cpp.Prelude.{ℕ, suc, ◌≡◌, ◌≢◌, subst, Option, []}
use stdiobus_cpp.Bus.Reentrant.{Kernel, Site, done, undefined, run_code, perform}
use stdiobus_cpp.Bus.Reentrant.Callbacks.{Slot, Notice, Operation}
use stdiobus_cpp.Bus.Reentrant.Safe.{Good, IsKept, Kept, run_code-Good}
use stdiobus_cpp.Bus.Reentrant.Interface.{Contract}
use stdiobus_cpp.Bus.Reentrant.Replies.{
  IsReply, IsNone, perform-Good, silent_depth-Good, good_result,
}
use stdiobus_cpp.Async.Reentrant.{
  Members, App, ends, requests, notifies, sweeps, pumps, starts, stops, reads, code_of, callbacks,
}
use stdiobus_cpp.Async.Reentrant.Sections.{
  IsFree, UsesOnly, code_of-Meets, OtherUses, callbacks-AllMeet,
}

-- Any call.
abbrev pub IsAny : Operation → Type 0
IsAny op = Unit {0}

uses-IsAny : (app : App) → UsesOnly IsAny app
uses-IsAny ends = tt
uses-IsAny (requests message now timeout app) = (λ m. tt, uses-IsAny app)
uses-IsAny (notifies message f) = (tt, λ a. uses-IsAny (f a))
uses-IsAny (sweeps now app) = uses-IsAny app
uses-IsAny (pumps timeout f) = (tt, λ a. uses-IsAny (f a))
uses-IsAny (starts f) = (tt, λ a. uses-IsAny (f a))
uses-IsAny (stops timeout f) = (tt, λ a. uses-IsAny (f a))
uses-IsAny (reads f) = λ p. uses-IsAny (f p)

module _ {K : Kernel} (contract : Contract K) (address h : ℕ)
    (others : Slot → Option (Notice → App)) where
  -- For a kernel of the contract, which may also call back in a send, and callbacks that make
  -- requests, notify, check timeouts and read futures: an application that uses the AsyncBus meets
  -- nothing undefined, however deep the calls nest. Where it is done, the mutex is free, for it was
  -- never locked by the thread that held it, the requests are valid, for no set_value threw, and the
  -- Bus has its instance and callbacks.
  pub app-IsFree :
      ((slot : Slot) → OtherUses IsReply (others slot))
      → (depth : ℕ) (app : App) (s : Site K Members)
      → IsKept contract.context address h (callbacks others) s
      → IsFree s.user
      → (run_code (perform address depth []) [] (code_of app) s ≢ undefined)
        × ((t : Site K Members)
            → run_code (perform address depth []) [] (code_of app) s ≡ done t
            → IsKept contract.context address h (callbacks others) t × IsFree t.user)
  app-IsFree replies depth app s kept free =
      let meet = callbacks-AllMeet IsReply others replies in
      let good =
        run_code-Good contract address h (callbacks others) IsFree (Unit {0}) IsAny
          (perform address depth []) []
          (λ op allowed t kept_t.
            perform-Good contract address h (callbacks others) IsFree meet depth [] op t kept_t)
          (code_of app) s kept (code_of-Meets IsAny app (uses-IsAny app) s.user free) in
      (
        λ e.
            subst (Good (Unit {0}) (Kept contract address h (callbacks others) IsFree (Unit {0}))) e
              good,
        λ t e.
            subst (Good (Unit {0}) (Kept contract address h (callbacks others) IsFree (Unit {0}))) e
              good,
      )

  -- For a kernel of the contract, which may also call back in a send, and callbacks that make no
  -- call of the Bus, but check timeouts and read futures: an application that uses the AsyncBus, with
  -- any calls, runs to its end with one level of calls. Then the mutex is free, the requests are
  -- valid, and the Bus has its instance and callbacks.
  pub app-returns :
      ((slot : Slot) → OtherUses IsNone (others slot))
      → (depth : ℕ) (app : App) (s : Site K Members)
      → IsKept contract.context address h (callbacks others) s
      → IsFree s.user
      → (t : Site K Members) × (run_code (perform address (suc depth) []) [] (code_of app) s
          ≡ done t)
        × IsKept contract.context address h (callbacks others) t
        × IsFree t.user
  app-returns silent depth app s kept free =
      let meet = callbacks-AllMeet IsNone others silent in
      let (t, e, good) =
        good_result (Kept contract address h (callbacks others) IsFree ⊥)
          (run_code (perform address (suc depth) []) [] (code_of app) s)
          (run_code-Good contract address h (callbacks others) IsFree ⊥ IsAny
            (perform address (suc depth) []) []
            (λ op allowed t kept_t.
              silent_depth-Good contract address h (callbacks others) IsFree meet depth [] op t
                kept_t)
            (code_of app) s kept (code_of-Meets IsAny app (uses-IsAny app) s.user free)) in
      (t, e, good.0, good.1)
