-- ===== src/Tests/Echo.antt =====
-- A kernel that echoes: a message that is ingested is passed to on_message by the next step. It
-- creates an instance when it is given a configuration, and reports an error when it is not.
use stdiobus_cpp.Prelude.{
  ℕ, zero, suc, ◌≡◌, refl, arith, Option, none, some, List, [], ◌∷◌, ◌++◌, Bytes, map, All, Bool,
  true, false, ◌==◌, if◌then◌else◌, codes, length,
}
use stdiobus_cpp.Prelude.Int.{pos, neg}
use stdiobus_cpp.Embed.{CState, COptions, CStats}
use stdiobus_cpp.Embed.Kernel.{Kernel, Reply, Callback, Contract, Keeps, Carries, message, error}

-- The user contexts of the instances so far, `none` for a destroyed one, and the queued messages.
pub record World : Type 0 where
  pub contexts : List (Option ℕ)
  pub queue : List Bytes

unfoldable pub context_at : List (Option ℕ) → ℕ → Option ℕ
context_at [] h = none
context_at (c ∷ cs) zero = c
context_at (c ∷ cs) (suc h) = context_at cs h

unfoldable pub clear : List (Option ℕ) → ℕ → List (Option ℕ)
clear [] h = []
clear (c ∷ cs) zero = none ∷ cs
clear (c ∷ cs) (suc h) = c ∷ clear cs h

unfoldable pub has_config : COptions → Bool
has_config o = elim (o.config_path) [
  | some path ↦ true
  | none ↦ (elim (o.config_json) [ some json ↦ true | none ↦ false ])
]

abbrev quiet : {A : Type 0} → A → World → Reply World A
quiet result w = record { result = result; callbacks = []; world = w }

unfoldable pub echoes : List Bytes → Option ℕ → List Callback
echoes queue none = []
echoes queue (some u) = map (λ m. record { event = message m; user_data = u }) queue

abbrev pub no_c_stats : CStats
no_c_stats = record {
  messages_in = 0;
  messages_out = 0;
  bytes_in = 0;
  bytes_out = 0;
  worker_restarts = 0;
  routing_errors = 0;
  client_connects = 0;
  client_disconnects = 0;
}

abbrev pub create_echo : COptions → World → Reply World (Option ℕ)
create_echo o w =
    if has_config o
    then (record {
      result = some (length w.contexts);
      callbacks = [];
      world = record w { contexts = w.contexts ++ (some o.user_data ∷ []) };
    })
    else (record {
      result = none;
      callbacks =
          record { event = error (neg 10) (some (codes "no config")); user_data = o.user_data }
          ∷ [];
      world = w;
    })

abbrev pub echo : Kernel
echo = record {
  World = World;
  create = create_echo;
  start = λ h w. quiet (pos 0) w;
  step = λ h ms w. record {
    result = pos 0;
    callbacks = echoes w.queue (context_at w.contexts h);
    world = record w { queue = [] };
  };
  stop = λ h s w. quiet (pos 0) w;
  ingest = λ h m w. quiet (pos 0) (record w { queue = w.queue ++ (m ∷ []) });
  destroy = λ h w. quiet tt (record w { contexts = clear w.contexts h });
  get_state = λ h w. CState.running;
  worker_count = λ h w. pos 1;
  session_count = λ h w. pos 0;
  pending_count = λ h w. pos 0;
  client_count = λ h w. pos 0;
  get_poll_fd = λ h w. neg 1;
  get_stats = λ h w. no_c_stats;
}

pub context_at-new :
    (cs : List (Option ℕ)) (u j : ℕ)
    → context_at (cs ++ (some u ∷ [])) j ≡ (if length cs == j then some u else context_at cs j)
unfolding context_at
context_at-new [] u zero = refl
context_at-new [] u (suc j) = ground arith
context_at-new (c ∷ cs) u zero = ground arith
context_at-new (c ∷ cs) u (suc j) = ground (arith, context_at-new cs u j)

pub context_at-length : (cs : List (Option ℕ)) → context_at cs (length cs) ≡ none
unfolding context_at
context_at-length [] = refl
context_at-length (c ∷ cs) = context_at-length cs

pub context_at-clear :
    (cs : List (Option ℕ)) (h j : ℕ)
    → context_at (clear cs h) j ≡ (if h == j then none else context_at cs j)
unfolding context_at clear
context_at-clear [] h j = ground arith
context_at-clear (c ∷ cs) zero zero = refl
context_at-clear (c ∷ cs) zero (suc j) = ground arith
context_at-clear (c ∷ cs) (suc h) zero = ground arith
context_at-clear (c ∷ cs) (suc h) (suc j) = ground (arith, context_at-clear cs h j)

pub echoes_carry :
    (queue : List Bytes) (c : Option ℕ) → All (λ x. some x.user_data ≡ c) (echoes queue c)
unfolding echoes
echoes_carry queue none = tt
echoes_carry [] (some u) = tt
echoes_carry (m ∷ queue) (some u) = (refl, echoes_carry queue (some u))

abbrev pub echo_context : World → ℕ → Option ℕ
echo_context w h = context_at w.contexts h

pub quiet-Keeps :
    {A : Type 0} (h : ℕ) (result : A) (f : World → World)
    → ((w : World) (j : ℕ) → context_at (f w).contexts j ≡ context_at w.contexts j)
    → Keeps echo echo_context h A (λ w. quiet result (f w))
quiet-Keeps h result f same = record { same = same; carries = λ w. tt }

pub Carries-if :
    (b : Bool) (o : COptions) (r s : Reply World (Option ℕ))
    → Carries (some o.user_data) r
    → Carries (some o.user_data) s
    → Carries (some o.user_data) (if b then r else s)
Carries-if true o r s x y = x
Carries-if false o r s x y = y

pub create_echo_null :
    (o : COptions) (w : World)
    → (create_echo o w).result ≡ none
    → (j : ℕ) → echo_context (create_echo o w).world j ≡ echo_context w j
create_echo_null o w f j = ground arith

pub create_echo_fresh :
    (o : COptions) (w : World) (h : ℕ) → (create_echo o w).result ≡ some h → echo_context w h ≡ none
create_echo_fresh o w h f = ground (arith, context_at-length w.contexts)

pub create_echo_context :
    (o : COptions) (w : World) (h : ℕ)
    → (create_echo o w).result ≡ some h
    → (j : ℕ)
    → echo_context (create_echo o w).world j
      ≡ (if h == j then some o.user_data else echo_context w j)
create_echo_context o w h f j = ground (arith, context_at-new w.contexts o.user_data j)

-- The contract of the kernel holds of the echo.
unfoldable pub echo_contract : Contract echo
echo_contract = record {
  context = echo_context;
  create_null = create_echo_null;
  create_fresh = create_echo_fresh;
  create_context = create_echo_context;
  create_carries = λ o w. Carries-if (has_config o) o _ _ tt (refl, tt);
  start_keeps = λ h. quiet-Keeps h (pos 0) (λ w. w) (λ w j. refl);
  step_keeps =
      λ h ms. record { same = λ w j. refl; carries = λ w. echoes_carry w.queue (echo_context w h) };
  stop_keeps = λ h s. quiet-Keeps h (pos 0) (λ w. w) (λ w j. refl);
  ingest_keeps =
      λ h m. quiet-Keeps h (pos 0) (λ w. record w { queue = w.queue ++ (m ∷ []) }) (λ w j. refl);
  destroy_context = λ h w j. context_at-clear w.contexts h j;
  destroy_carries = λ h w. tt;
}
