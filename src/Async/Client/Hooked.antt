-- ===== src/Async/Client/Hooked.antt =====
-- The message handler of an AsyncBus behind its Bus: what the kernel's callbacks do to its requests.

use stdiobus_cpp.Prelude.{
  refl, Bool, true, false, or_default, ℕ, ◌≡◌, Option, some, List, [], ◌∷◌, Bytes, Option-cases,
  inl, inr,
}
use stdiobus_cpp.Embed.Kernel.{
  Callback, Event, message, error, log, worker, client_connect, client_disconnect,
}
use stdiobus_cpp.ErrorCode
use stdiobus_cpp.Types.{Options}
use stdiobus_cpp.Bus.Machine.{dispatch}
use stdiobus_cpp.Bus.Delivery.{deliver}
use stdiobus_cpp.Async.Pending.{AsyncState, handle_response}
use stdiobus_cpp.Async.Client.{Client, lift, message_handler, on_app}

-- A fact about the requests that every message keeps.
abbrev pub Stays : (AsyncState → Type 0) → Type 0
Stays P =
    (msg : Bytes) (s : AsyncState)
    → P s
    → (s' : AsyncState) × (handle_response msg s ≡ some s') × P s'

abbrev pub is_message : Event → Bool
is_message (message msg) = true
is_message event = false

module _ {A : Type 0} where
  -- The options of the Bus after setup_message_handler.
  abbrev pub hooked : Options A → Options (Client A)
  hooked o = record (lift o) { on_message = some message_handler }

  -- No message failed, and the fact holds.
  abbrev pub Holds : (AsyncState → Type 0) → Client A → Type 0
  Holds P c = (s : AsyncState) × (c.requests ≡ some s) × P s

  pub message-keeps :
      (P : AsyncState → Type 0)
      → Stays P
      → (msg : Bytes) (c : Client A) → Holds P c
      → Holds P (message_handler msg c)
  unfolding message_handler
  message-keeps P k msg c (s, e, x) = rw (e, message_handler) (k msg s x)

  -- The other handlers are the application's: what they cannot change, no other event changes.
  pub dispatch-other :
      (P : Client A → Type 0)
      → ((f : A → A) (c : Client A) → P c → P (on_app f c))
      → (event : Event) → is_message event ≡ false
      → (o : Options A) (h : Option ℕ) (c : Client A) → P c
      → P (dispatch event (record { handle = h; options = hooked o }) c)
  unfolding dispatch
  dispatch-other P app (message msg) x o h c k = cc x
  dispatch-other P app (error code msg) x o h c k = elim (Option-cases o.on_error) [
    | inl e ↦ rw e k
    | inr (f, e) ↦ rw e (app (f (ErrorCode.cast code) (or_default [] msg)) c k)
  ]
  dispatch-other P app (log level msg) x o h c k = elim (Option-cases o.on_log) [
    | inl e ↦ rw e k
    | inr (f, e) ↦ rw e (app (f level (or_default [] msg)) c k)
  ]
  dispatch-other P app (worker n msg) x o h c k = elim (Option-cases o.on_worker) [
    | inl e ↦ rw e k
    | inr (f, e) ↦ rw e (app (f n (or_default [] msg)) c k)
  ]
  dispatch-other P app (client_connect n msg) x o h c k = elim (Option-cases o.on_client_connect) [
    | inl e ↦ rw e k
    | inr (f, e) ↦ rw e (app (f n (or_default [] msg)) c k)
  ]
  dispatch-other P app (client_disconnect n msg) x o h c k =
      elim (Option-cases o.on_client_disconnect) [
        | inl e ↦ rw e k
        | inr (f, e) ↦ rw e (app (f n (or_default [] msg)) c k)
      ]

  pub dispatch-keeps :
      (P : AsyncState → Type 0)
      → Stays P
      → (event : Event) (o : Options A) (h : Option ℕ) (c : Client A) → Holds P c
      → Holds P (dispatch event (record { handle = h; options = hooked o }) c)
  unfolding dispatch
  dispatch-keeps P stays (message msg) o h c k = message-keeps P stays msg c k
  dispatch-keeps P stays event o h c k = dispatch-other (Holds P) (λ f d x. x) event refl o h c k

  -- Whatever the kernel calls back, no promise is set twice, and what every message keeps stays.
  pub deliver-keeps :
      (P : AsyncState → Type 0)
      → Stays P
      → (cs : List Callback) (o : Options A) (h : Option ℕ) (c : Client A) → Holds P c
      → Holds P (deliver (record { handle = h; options = hooked o }) cs c)
  unfolding deliver
  deliver-keeps P stays [] o h c k = k
  deliver-keeps P stays (x ∷ cs) o h c k =
      deliver-keeps P stays cs o h _ (dispatch-keeps P stays x.event o h c k)
