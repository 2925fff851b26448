-- ===== src/Ffi/Handle.antt =====
-- class Handle of include/stdiobus/ffi.hpp, with create and destroy. The wrappers pass the pointer on
-- unchecked. The header of the kernel does not say what its functions do with a null pointer: `none`.
use stdiobus_cpp.Prelude.{ℕ, Bool, true, false, Option, none, some, [], Bytes}
use stdiobus_cpp.Prelude.Int.{ℤ}
use stdiobus_cpp.Embed.{CState, CStats, COptions}
use stdiobus_cpp.Embed.Kernel.{Kernel, Reply}

-- stdio_bus_t* handle_
abbrev pub Handle : Type 0
Handle = Option ℕ

-- explicit operator bool
abbrev pub is_open : Handle → Bool
is_open none = false
is_open (some h) = true

-- A C function on the handle.
abbrev pub on_handle : {A : Type 0} → Handle → (ℕ → A) → Option A
on_handle none f = none
on_handle (some h) f = some (f h)

module _ (K : Kernel) where
  abbrev pub start : Handle → K.World → Option (Reply K.World ℤ)
  start handle w = on_handle handle (λ h. K.start h w)

  abbrev pub step : Handle → ℤ → K.World → Option (Reply K.World ℤ)
  step handle timeout_ms w = on_handle handle (λ h. K.step h timeout_ms w)

  abbrev pub stop : Handle → ℤ → K.World → Option (Reply K.World ℤ)
  stop handle timeout_sec w = on_handle handle (λ h. K.stop h timeout_sec w)

  abbrev pub ingest : Handle → Bytes → K.World → Option (Reply K.World ℤ)
  ingest handle msg w = on_handle handle (λ h. K.ingest h msg w)

  abbrev pub get_state : Handle → K.World → Option CState
  get_state handle w = on_handle handle (λ h. K.get_state h w)

  abbrev pub worker_count : Handle → K.World → Option ℤ
  worker_count handle w = on_handle handle (λ h. K.worker_count h w)

  abbrev pub session_count : Handle → K.World → Option ℤ
  session_count handle w = on_handle handle (λ h. K.session_count h w)

  abbrev pub pending_count : Handle → K.World → Option ℤ
  pending_count handle w = on_handle handle (λ h. K.pending_count h w)

  abbrev pub client_count : Handle → K.World → Option ℤ
  client_count handle w = on_handle handle (λ h. K.client_count h w)

  abbrev pub get_poll_fd : Handle → K.World → Option ℤ
  get_poll_fd handle w = on_handle handle (λ h. K.get_poll_fd h w)

  abbrev pub get_stats : Handle → K.World → Option CStats
  get_stats handle w = on_handle handle (λ h. K.get_stats h w)

  abbrev pub create : COptions → K.World → Reply K.World Handle
  create options w = K.create options w

  -- `if (h)` stdio_bus_destroy; the Handle keeps its pointer.
  abbrev pub destroy : Handle → K.World → Reply K.World (Unit {0})
  destroy none w = record { result = tt; callbacks = []; world = w }
  destroy (some h) w = K.destroy h w
