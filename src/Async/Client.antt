-- ===== src/Async/Client.antt =====
-- The methods of AsyncBus, over its Bus: bus_ is a Bus whose application state holds the members of
-- the AsyncBus, since the message handler captures `this`.
pub mod Fate
pub mod Events
pub mod Hooked
pub mod Sending
pub mod Closed
pub mod Requests
pub mod Construct
pub mod Pump
pub mod RoundTrip
pub mod Session
pub mod Runs
pub mod Destroyed
use mathlib.Core.Option
use stdiobus_cpp.Prelude.{
  ℕ, Bool, true, ◌∷◌, is_empty, Option, none, some, [], Bytes, if◌then◌else◌,
}
use stdiobus_cpp.Prelude.Int.{ℤ, ◌+ℤ◌, pos}
use stdiobus_cpp.Error.{Error, is_error}
use stdiobus_cpp.ErrorCode.{ErrorCode}
use stdiobus_cpp.Embed.Kernel.{Kernel}
use stdiobus_cpp.Types.{Options, default_options}
use stdiobus_cpp.Bus.Machine.{Bus, Machine, M, ◌>>=◌, ◌>>◌, pure}
use stdiobus_cpp.Bus.Lifetime
use stdiobus_cpp.Bus.Calls
use stdiobus_cpp.Async.Id.{extract_id, extract_or_inject_id}
use stdiobus_cpp.Async.Table.{Table}
use stdiobus_cpp.Async.Pending
use stdiobus_cpp.Async.Pending.{AsyncState, Shared, abandon, handle_response, register, settle}

-- The members of the AsyncBus (`none` once they are destroyed, or a promise was set twice, which
-- throws), and the state of the application's own callbacks.
pub record Client (A : Type 0) : Type 0 where
  pub requests : Option AsyncState
  -- The states that the futures share with the promises, after the members are destroyed.
  pub left : ℕ → Shared
  -- The message handler has used members that are not there, which is undefined.
  pub stray : Bool
  pub app : A

module _ {A : Type 0} where
  -- A callback of the application, which does not touch the AsyncBus.
  abbrev pub on_app : (A → A) → Client A → Client A
  on_app f c = record c { app = f c.app }

  -- [this](std::string_view msg) { handle_response(msg); }
  unfoldable pub message_handler : Bytes → Client A → Client A
  unfolding handle_response is_empty extract_id
  message_handler msg c = elim (c.requests) [
    | none ↦ if is_empty (extract_id msg) then c else record c { stray = true }
    | some requests ↦ record c { requests = handle_response msg requests }
  ]

  -- The Options that are moved into bus_.
  abbrev pub lift : Options A → Options (Client A)
  lift o = record {
    config_path = o.config_path;
    config_json = o.config_json;
    listener = o.listener;
    on_message = Option.map (λ f msg. on_app (f msg)) o.on_message;
    on_error = Option.map (λ f code msg. on_app (f code msg)) o.on_error;
    on_log = Option.map (λ f n msg. on_app (f n msg)) o.on_log;
    on_worker = Option.map (λ f n msg. on_app (f n msg)) o.on_worker;
    on_client_connect = Option.map (λ f n msg. on_app (f n msg)) o.on_client_connect;
    on_client_disconnect = Option.map (λ f n msg. on_app (f n msg)) o.on_client_disconnect;
    log_level = o.log_level;
  }

module _ (K : Kernel) {A : Type 0} where
  -- A critical section of the AsyncBus.
  unfoldable pub section : (AsyncState → Option AsyncState) → M K (Client A) (Unit {0})
  section f s = elim (s.user.requests) [
    | none ↦ none
    | some requests ↦ (elim (f requests) [
      | none ↦ none
      | some next ↦ some (tt, record s { user = record (s.user) { requests = some next } })
    ])
  ]

  unfoldable pub read_requests : M K (Client A) AsyncState
  read_requests s = Option.map (λ requests. (requests, s)) s.user.requests

  -- setup_message_handler
  unfoldable pub setup_message_handler : Bus → M K (Client A) (Unit {0})
  unfolding Calls.on_message message_handler
  setup_message_handler bus = Calls.on_message K bus (some message_handler)

  -- next_id_(1), and an empty pending_.
  unfoldable pub initialize : M K (Client A) (Unit {0})
  initialize s = some (tt, record s { user = record (s.user) { requests = some Pending.start } })

  -- AsyncBus(Options options)
  unfoldable pub construct : Options A → M K (Client A) Bus
  unfolding Lifetime.construct setup_message_handler initialize
  construct options = do
    bus ← Lifetime.construct K (lift options)
    initialize
    setup_message_handler bus
    pure bus

  -- AsyncBus(std::string_view config_path)
  unfoldable pub construct_from_path : Bytes → M K (Client A) Bus
  unfolding Lifetime.construct_from_path setup_message_handler initialize
  construct_from_path config_path = do
    bus ← Lifetime.construct_from_path K config_path
    initialize
    setup_message_handler bus
    pure bus

  unfoldable pub start : Bus → M K (Client A) Error
  unfolding Calls.start
  start bus = Calls.start K bus

  unfoldable pub stop : Bus → ℤ → M K (Client A) Error
  unfolding Calls.stop
  stop bus timeout = Calls.stop K bus timeout

  unfoldable pub pump : Bus → ℤ → M K (Client A) ℤ
  unfolding Calls.step
  pump bus timeout = Calls.step K bus timeout

  unfoldable pub notify : Bus → Bytes → M K (Client A) Error
  unfolding Calls.send
  notify bus message = Calls.send K bus message

  -- "Send failed, resolve immediately"
  unfoldable pub resolve_failed : Bytes → Error → M K (Client A) (Unit {0})
  unfolding section settle is_error
  resolve_failed id err =
      if is_error err then section (settle id (record { error = err; response = [] })) else pure tt

  -- request_async at the time `now`; the future is the number of its promise.
  unfoldable pub request_async : Bus → Bytes → ℤ → ℤ → M K (Client A) ℕ
  unfolding section register extract_or_inject_id Calls.send resolve_failed read_requests
  request_async bus message now timeout = do
    before ← read_requests
    let x = extract_or_inject_id message before.next_id
    section (λ r. some (register x.id (now +ℤ timeout) (record r { next_id = x.next_id })))
    err ← Calls.send K bus x.json
    resolve_failed x.id err
    pure before.next_promise

  unfoldable pub check_timeouts : ℤ → M K (Client A) (Unit {0})
  unfolding section Pending.check_timeouts
  check_timeouts now = section (Pending.check_timeouts now)

-- The destruction of pending_: each entry is the last owner of its promise.
unfoldable pub abandon_all : Table → (ℕ → Shared) → ℕ → Shared
unfolding abandon
abandon_all [] promises = promises
abandon_all ((id, r) ∷ t) promises = abandon_all t (abandon promises r.promise)

module _ (K : Kernel) {A : Type 0} where
  -- pending_ is declared behind bus_, and so destroyed before it.
  unfoldable pub destroy_members : M K (Client A) (Unit {0})
  unfolding abandon_all
  destroy_members s = elim (s.user.requests) [
    | none ↦ none
    | some r ↦ some (
      tt,
      record s {
        user = record (s.user) { requests = none; left = abandon_all r.pending r.promises };
      },
    )
  ]

  -- ~AsyncBus()
  unfoldable pub destruct : Bus → M K (Client A) (Unit {0})
  unfolding destroy_members Lifetime.destruct
  destruct bus = do destroy_members; Lifetime.destruct K bus
