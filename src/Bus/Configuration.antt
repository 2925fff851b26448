-- ===== src/Bus/Configuration.antt =====
-- How the options reach the kernel, and the constructor from a path.
use stdiobus_cpp.Prelude.{
  ℕ, ◌≡◌, refl, subst, ap, Bool, false, ◌||◌, ◌==◌, Bool-cases, [], ◌∷◌, Bytes, or_default,
  is_empty, inl, inr, Option-cases,
}
use stdiobus_cpp.Embed.{CListenMode}
use stdiobus_cpp.Embed.Kernel.{Kernel}
use stdiobus_cpp.Types.{ListenMode, Options, default_options}
use stdiobus_cpp.Bus.Machine.{Machine, ◌>>=◌}
use stdiobus_cpp.Bus.Lifetime.{
  c_options, c_string, c_str_or_null, to_listen_mode, construct, construct_from_path, move_assign,
  destruct, reset,
}

-- The mode that the kernel reads back.
abbrev pub listen_mode : CListenMode → ListenMode
listen_mode CListenMode.none = ListenMode.embedded
listen_mode CListenMode.tcp = ListenMode.tcp
listen_mode CListenMode.unix = ListenMode.unix

-- The text has a NUL in it.
unfoldable pub holds_nul : Bytes → Bool
holds_nul [] = false
holds_nul (c ∷ s) = (c == 0) || holds_nul s

c_string_lem : (s : Bytes) → holds_nul s ≡ false → c_string s ≡ s
unfolding c_string holds_nul
c_string_lem [] whole = refl
c_string_lem (c ∷ s) whole = elim (Bool-cases (c == 0)) [
  | inl e ↦ cc (e, whole)
  | inr e ↦
      rw (e, c_string)
        (ap (λ t. c ∷ t) (c_string_lem s (subst (λ b. (b || holds_nul s) ≡ false) e whole)))
]

c_str_or_null-or_default : (s : Bytes) → holds_nul s ≡ false → or_default [] (c_str_or_null s) ≡ s
unfolding c_str_or_null is_empty
c_str_or_null-or_default [] whole = refl
c_str_or_null-or_default (c ∷ s) whole = c_string_lem (c ∷ s) whole

to_listen_mode-listen_mode : (mode : ListenMode) → listen_mode (to_listen_mode mode) ≡ mode
unfolding to_listen_mode
to_listen_mode-listen_mode ListenMode.embedded = refl
to_listen_mode-listen_mode ListenMode.tcp = refl
to_listen_mode-listen_mode ListenMode.unix = refl

-- For options whose texts hold no NUL, the C options lose nothing of the configuration: with a null
-- pointer read as the empty text, the paths, the inline configuration, the listener and the log
-- level are those of the options, and the user data is the Impl.
pub c_options_lem :
    {U : Type 0} (o : Options U) (impl : ℕ)
    → holds_nul o.config_path ≡ false
    → holds_nul o.config_json ≡ false
    → holds_nul o.listener.tcp_host ≡ false
    → holds_nul o.listener.unix_path ≡ false
    → (or_default [] (c_options o impl).config_path ≡ o.config_path)
      × (or_default [] (c_options o impl).config_json ≡ o.config_json)
      × (listen_mode (c_options o impl).listener.mode ≡ o.listener.mode)
      × (or_default [] (c_options o impl).listener.tcp_host ≡ o.listener.tcp_host)
      × ((c_options o impl).listener.tcp_port ≡ o.listener.tcp_port)
      × (or_default [] (c_options o impl).listener.unix_path ≡ o.listener.unix_path)
      × ((c_options o impl).log_level ≡ o.log_level)
      × ((c_options o impl).user_data ≡ impl)
unfolding c_options
c_options_lem o impl path json host socket = (
  c_str_or_null-or_default o.config_path path,
  c_str_or_null-or_default o.config_json json,
  to_listen_mode-listen_mode o.listener.mode,
  c_str_or_null-or_default o.listener.tcp_host host,
  refl,
  c_str_or_null-or_default o.listener.unix_path socket,
  refl,
  refl,
)

-- The constructor from a path does what the constructor from the default options with that path
-- does: the temporary that it moves from is destroyed without an effect.
pub construct_from_path-construct :
    (K : Kernel) {U : Type 0} (path : Bytes) (s : Machine K U)
    → construct_from_path K path s
      ≡ construct K (record (default_options U) { config_path = path }) s
unfolding construct_from_path move_assign destruct reset
construct_from_path-construct K {U} path s =
    elim (Option-cases (construct K (record (default_options U) { config_path = path }) s)) [
      | inl e ↦ rw (e, construct_from_path, ◌>>=◌) refl
      | inr (x, e) ↦ rw (e, construct_from_path, ◌>>=◌) refl
    ]
