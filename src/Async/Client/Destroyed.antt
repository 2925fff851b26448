-- ===== src/Async/Client/Destroyed.antt =====
-- The destructor of an AsyncBus: what becomes of its futures, of the instance, and of the messages
-- that the kernel passes on while the Bus is stopped and destroyed.
use stdiobus_cpp.Prelude.{
  ℕ, ◌<◌, ◌≡◌, refl, ap, ◌∙◌, Bool, true, false, ◌&&◌, ◌||◌, Option, none, some, List, [], ◌∷◌,
  arith, ◌==◌, ==_refl, ltb, if◌then◌else◌, is_empty, Bool-cases, inl, inr,
}
use stdiobus_cpp.Prelude.Int.{pos}
use stdiobus_cpp.Embed.Kernel.{Kernel, Contract, Callback, Event, message}
use stdiobus_cpp.Types.{Options}
use stdiobus_cpp.Bus.Machine.{Impl, Machine, dispatch, ◌>>=◌, ◌>>◌}
use stdiobus_cpp.Bus.Lifetime.{needs_stop}
use stdiobus_cpp.Bus.Delivery.{deliver}
use stdiobus_cpp.Bus.Behaviour.{Owns}
use stdiobus_cpp.Bus.Lifecycle.{destroyed, destruct-eq}
use stdiobus_cpp.Bus.Program.Release.{destroyed_context, destroyed_heap}
use stdiobus_cpp.Async.Id.{extract_id}
use stdiobus_cpp.Async.Table.{Table, holders}
use stdiobus_cpp.Async.Pending.{AsyncState, Shared, broken, abandon}
use stdiobus_cpp.Async.Pending.Invariant.{IsValid, is_waiting}
use stdiobus_cpp.Async.Client.{Client, message_handler, abandon_all, destroy_members, destruct}
use stdiobus_cpp.Async.Client.Hooked.{hooked, dispatch-other}

-- The event makes the handler look for a pending request.
abbrev pub is_response : Event → Bool
is_response (message msg) = if is_empty (extract_id msg) then false else true
is_response event = false

pub has_response : List Callback → Bool
has_response [] = false
has_response (c ∷ cs) = is_response c.event || has_response cs

-- Each promise of a table goes, if it still waits.
abandon_all-at :
    (t : Table) (promises : ℕ → Shared) (p : ℕ)
    → abandon_all t promises p
      ≡ (if ltb 0 (holders p t) && is_waiting (promises p) then broken else promises p)
unfolding abandon_all abandon holders
abandon_all-at [] promises p = refl
abandon_all-at ((id, r) ∷ t) promises p =
    ground (arith, abandon_all-at t (abandon promises r.promise) p)

left_lem :
    (st : AsyncState)
    → IsValid st
    → (p : ℕ) → p < st.next_promise
    → abandon_all st.pending st.promises p
      ≡ (if is_waiting (st.promises p) then broken else st.promises p)
left_lem st v p m = ground (arith, abandon_all-at st.pending st.promises p, v.held p)

module _ {A : Type 0} where
  -- The members are gone: a response strays, and nothing else happens to them.
  abbrev pub Gone : (ℕ → Shared) → Bool → Client A → Type 0
  Gone left stray c = (c.requests ≡ none) × (c.left ≡ left) × (c.stray ≡ stray)

  dispatch-Gone :
      (event : Event) (o : Options A) (h : Option ℕ) (left : ℕ → Shared) (stray : Bool)
      (c : Client A)
      → Gone left stray c
      → Gone left
          (stray || is_response event)
          (dispatch event (record { handle = h; options = hooked o }) c)
  unfolding dispatch message_handler
  dispatch-Gone (message msg) o h left stray c (r, l, s) = ground (arith, r, l, s)
  dispatch-Gone event o h left stray c (r, l, s) =
      dispatch-other (Gone left (stray || is_response event)) (λ f d g. g) event refl o h c
        (r, l, ground (arith, s))

  deliver-Gone :
      (cs : List Callback) (o : Options A) (h : Option ℕ) (left : ℕ → Shared) (stray : Bool)
      (c : Client A)
      → Gone left stray c
      → Gone left
          (stray || has_response cs)
          (deliver (record { handle = h; options = hooked o }) cs c)
  unfolding deliver has_response
  deliver-Gone [] o h left stray c (r, l, s) = (r, l, ground (arith, s))
  deliver-Gone (x ∷ cs) o h left stray c g =
      let (r, l, s) =
        deliver-Gone cs o h left (stray || is_response x.event) _
          (dispatch-Gone x.event o h left stray c g) in
      (r, l, ground (arith, s))

-- The kernel passes on a response while the destructor stops or destroys the instance.
unfoldable pub responds : (K : Kernel) → ℕ → K.World → Bool
unfolding needs_stop has_response
responds K h w =
    if needs_stop (K.get_state h w)
    then has_response (K.stop h (pos 5) w).callbacks
      || has_response (K.destroy h (K.stop h (pos 5) w).world).callbacks
    else has_response (K.destroy h w).callbacks

||_assoc : (a b c : Bool) → ((a || b) || c) ≡ (a || (b || c))
||_assoc true b c = refl
||_assoc false b c = refl

module _ {K : Kernel} {A : Type 0} (L : Contract K) where
  -- The user state of the destroyed AsyncBus.
  destroyed-Gone :
      (o : Options A) (s : Machine K (Client A)) (a h : ℕ) (left : ℕ → Shared) (stray : Bool)
      → Gone left stray s.user
      → Gone left
          (stray || responds K h s.world)
          (destroyed L s a h (record { handle = some h; options = hooked o })).user
  unfolding responds
  destroyed-Gone o s a h left stray g = elim (Bool-cases (needs_stop (K.get_state h s.world))) [
    | inl e ↦
        let stops = (K.stop h (pos 5) s.world).callbacks in
        let ends = (K.destroy h (K.stop h (pos 5) s.world).world).callbacks in
        let (r, l, x) =
          deliver-Gone ends o (some h) left (stray || has_response stops) _
            (deliver-Gone stops o (some h) left stray s.user g) in
        rw (e, responds) (r, l, x ∙ ||_assoc stray (has_response stops) (has_response ends))
    | inr e ↦
        rw (e, responds)
          (deliver-Gone (K.destroy h s.world).callbacks o (some h) left stray s.user g)
  ]

  -- The members of the AsyncBus are destroyed first: the futures that wait are broken, the others
  -- keep what they have. Then the Bus is destroyed: its instance is gone from the kernel and no
  -- other one, and its Impl is freed. The handler uses destroyed members in exactly the case that
  -- the kernel passes on a response while it stops or destroys the instance.
  pub destruct_lem :
      (o : Options A) {s : Machine K (Client A)} {a h : ℕ} {st : AsyncState}
      → Owns L s a h (record { handle = some h; options = hooked o })
      → s.user.requests ≡ some st
      → IsValid st
      → (t : Machine K (Client A)) × (destruct K (some a) s ≡ some (tt, t))
        × ((j : ℕ) → L.context t.world j ≡ (if h == j then none else L.context s.world j))
        × (t.heap a ≡ none)
        × ((p : ℕ)
            → p < st.next_promise
            → t.user.left p ≡ (if is_waiting (st.promises p) then broken else st.promises p))
        × (t.user.stray ≡ (s.user.stray || responds K h s.world))
  unfolding destruct destroy_members
  destruct_lem o {s} {a} {h} {st} own e v =
      let impl : Impl (Client A) = record { handle = some h; options = hooked o } in
      let left = abandon_all st.pending st.promises in
      let s1 : Machine K (Client A) = record s {
        user = record (s.user) { requests = none; left = left };
      } in
      let own1 : Owns L s1 a h impl = record {
        stored = own.stored;
        handle = refl;
        context = own.context;
      } in
      let (_, l, x) = destroyed-Gone o s1 a h left s.user.stray (refl, refl, refl) in
      (
        destroyed L s1 a h impl,
        rw (e, destruct, ◌>>◌, ◌>>=◌, destroy_members) (destruct-eq L own1),
        destroyed_context L s1 a h impl own1,
        destroyed_heap L s1 a h impl own1 a ∙ rw (==_refl a) refl,
        (λ p m. ap (λ f. f p) l ∙ left_lem st v p m),
        x,
      )
