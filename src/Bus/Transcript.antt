-- ===== src/Bus/Transcript.antt =====
-- The trampolines of Bus::Impl against a record of what an application's callbacks get.
use stdiobus_cpp.Prelude.{
  ℕ, ◌≡◌, refl, sym, ap, ◌∙◌, Bool, true, false, Bool-cases, inl, inr, Option, none, some, List, [],
  ◌∷◌, ◌++◌, Bytes, or_default, append-nil, append_assoc, if◌then◌else◌,
}
use stdiobus_cpp.Prelude.Int.{ℤ, to_int}
use stdiobus_cpp.ErrorCode
use stdiobus_cpp.ErrorCode.{ErrorCode}
use stdiobus_cpp.Error.{from_c}
use stdiobus_cpp.Embed.Kernel.{
  Kernel, Contract, Callback, Event, message, error, log, worker, client_connect, client_disconnect,
}
use stdiobus_cpp.Types.{Options}
use stdiobus_cpp.Bus.Machine.{Impl, Machine, dispatch}
use stdiobus_cpp.Bus.Calls.{start, step, stop, send}
use stdiobus_cpp.Bus.Delivery.{after, deliver}
use stdiobus_cpp.Bus.Behaviour.{Owns, owned_operations}
use stdiobus_cpp.Bus.Reentrant.Callbacks
use stdiobus_cpp.Bus.Reentrant.Callbacks.{Slot}

-- What a callback was called with.
pub data Entry : Type 0 where
  got_message : Bytes → Entry
  got_error : ErrorCode → Bytes → Entry
  got_log : ℤ → Bytes → Entry
  got_worker : ℤ → Bytes → Entry
  got_connect : ℤ → Bytes → Entry
  got_disconnect : ℤ → Bytes → Entry

abbrev pub write : Entry → List Entry → List Entry
write e book = book ++ (e ∷ [])

abbrev pub set_if : {A : Type 0} → Bool → A → Option A
set_if b f = if b then some f else none

-- A null text is read as the empty one.
unfoldable pub text : Option Bytes → Bytes
text none = []
text (some t) = t

-- A callback with a number and a text, where it is set.
written :
    {A : Type 0} (b : Bool) (entry : A → Bytes → Entry) (x : A) (t : Option Bytes)
    (book : List Entry)
    → elim (set_if {A = A → Bytes → List Entry → List Entry} b (λ y what. write (entry y what))) [
      | none ↦ book
      | some cb ↦ cb x (or_default [] t) book
    ]
      ≡ book ++ (if b then entry x (text t) ∷ [] else [])
unfolding text
written true entry x none book = refl
written true entry x (some t) book = refl
written false entry x t book = sym (append-nil book)

module _ (listens : Slot → Bool) where
  -- The application sets the callbacks that it listens with, and each writes down its call.
  abbrev pub recording : Options (List Entry) → Options (List Entry)
  recording o = record o {
    on_message = set_if (listens Callbacks.on_message) (λ msg. write (got_message msg));
    on_error = set_if (listens Callbacks.on_error) (λ code msg. write (got_error code msg));
    on_log = set_if (listens Callbacks.on_log) (λ level msg. write (got_log level msg));
    on_worker = set_if (listens Callbacks.on_worker) (λ id what. write (got_worker id what));
    on_client_connect =
        set_if (listens Callbacks.on_client_connect) (λ id peer. write (got_connect id peer));
    on_client_disconnect =
        set_if (listens Callbacks.on_client_disconnect) (λ id why. write (got_disconnect id why));
  }

  abbrev pub entry_if : Slot → Entry → List Entry
  entry_if slot e = if listens slot then e ∷ [] else []

  -- Each event is for the callback of its own name, with a null text as the empty one.
  unfoldable pub entries_of : Event → List Entry
  unfolding text ErrorCode.cast
  entries_of (message msg) = entry_if Callbacks.on_message (got_message msg)
  entries_of (error code msg) =
      entry_if Callbacks.on_error (got_error (ErrorCode.cast code) (text msg))
  entries_of (log level msg) = entry_if Callbacks.on_log (got_log level (text msg))
  entries_of (worker id what) = entry_if Callbacks.on_worker (got_worker id (text what))
  entries_of (client_connect id peer) =
      entry_if Callbacks.on_client_connect (got_connect id (text peer))
  entries_of (client_disconnect id why) =
      entry_if Callbacks.on_client_disconnect (got_disconnect id (text why))

  -- What the callbacks of a call of the kernel should write, in order.
  unfoldable pub transcript : List Callback → List Entry
  unfolding entries_of
  transcript [] = []
  transcript (c ∷ cs) = entries_of c.event ++ transcript cs

  dispatch-entries_of :
      (event : Event) (h : Option ℕ) (o : Options (List Entry)) (book : List Entry)
      → dispatch event (record { handle = h; options = recording o }) book
        ≡ book ++ entries_of event
  unfolding dispatch entries_of
  dispatch-entries_of (message msg) h o book = elim (Bool-cases (listens Callbacks.on_message)) [
    | inl e ↦ rw e refl
    | inr e ↦ rw e (sym (append-nil book))
  ]
  dispatch-entries_of (error code msg) h o book =
      written (listens Callbacks.on_error) got_error (ErrorCode.cast code) msg book
  dispatch-entries_of (log level msg) h o book =
      written (listens Callbacks.on_log) got_log level msg book
  dispatch-entries_of (worker id what) h o book =
      written (listens Callbacks.on_worker) got_worker id what book
  dispatch-entries_of (client_connect id peer) h o book =
      written (listens Callbacks.on_client_connect) got_connect id peer book
  dispatch-entries_of (client_disconnect id why) h o book =
      written (listens Callbacks.on_client_disconnect) got_disconnect id why book

  deliver-transcript :
      (cs : List Callback) (h : Option ℕ) (o : Options (List Entry)) (book : List Entry)
      → deliver (record { handle = h; options = recording o }) cs book ≡ book ++ transcript cs
  unfolding deliver transcript
  deliver-transcript [] h o book = sym (append-nil book)
  deliver-transcript (c ∷ cs) h o book =
      deliver-transcript cs h o _
      ∙ ap (λ b. b ++ transcript cs) (dispatch-entries_of c.event h o book)
      ∙ append_assoc book (entries_of c.event) (transcript cs)

module _ {K : Kernel} (L : Contract K) where
  -- On a Bus with an instance, and with any choice of callbacks set, each of which writes down its
  -- call: start, stop, send and step return what the kernel returns, the first three as an Error, and
  -- the book then goes on with the kernel's callbacks during the call, in order: a message, an error
  -- with its code, a log line, and a worker, connect or disconnect event are each written by the
  -- callback of that name, and those without a callback are not.
  pub operations-transcript :
      (listens : Slot → Bool) (o : Options (List Entry)) {s : Machine K (List Entry)} {a h : ℕ}
      → Owns L s a h (record { handle = some h; options = recording listens o })
      → (timeout : ℤ) (json : Bytes)
      → let starts = K.start h s.world in
        let stops = K.stop h (to_int timeout) s.world in
        let sends = K.ingest h json s.world in
        let steps = K.step h (to_int timeout) s.world in
        ((t : Machine K (List Entry)) × (start K (some a) s ≡ some (from_c starts.result, t))
          × (t.world ≡ starts.world)
          × (t.user ≡ s.user ++ transcript listens starts.callbacks))
        × ((t : Machine K (List Entry)) × (stop K (some a) timeout s
              ≡ some (from_c stops.result, t))
            × (t.world ≡ stops.world)
            × (t.user ≡ s.user ++ transcript listens stops.callbacks))
        × ((t : Machine K (List Entry)) × (send K (some a) json s ≡ some (from_c sends.result, t))
            × (t.world ≡ sends.world)
            × (t.user ≡ s.user ++ transcript listens sends.callbacks))
        × ((t : Machine K (List Entry)) × (step K (some a) timeout s ≡ some (steps.result, t))
            × (t.world ≡ steps.world)
            × (t.user ≡ s.user ++ transcript listens steps.callbacks))
  operations-transcript listens o {s} {a} {h} own timeout json =
      let impl : Impl (List Entry) = record { handle = some h; options = recording listens o } in
      let (started, stopped, sent, stepped) = owned_operations L own timeout json in
      let book = λ (cs : List Callback). deliver-transcript listens cs (some h) o s.user in
      (
        (after s impl (K.start h), started, refl, book _),
        (after s impl (K.stop h (to_int timeout)), stopped, refl, book _),
        (after s impl (K.ingest h json), sent, refl, book _),
        (after s impl (K.step h (to_int timeout)), stepped, refl, book _),
      )
