-- ===== src/Version.antt =====
-- include/stdiobus/version.hpp, and kernel_compatible of src/bus.cpp.
use stdiobus_cpp.Prelude.{ℕ, Bool, Bytes, codes, ◌==◌}
use stdiobus_cpp.Embed.{stdio_bus_embed_api_version}

abbrev pub version_major : ℕ
version_major = 1

abbrev pub version_minor : ℕ
version_minor = 0

abbrev pub version_patch : ℕ
version_patch = 0

abbrev pub version : Bytes
version = codes "1.0.0"

-- STDIOBUS_VERSION_NUMBER
abbrev pub version_number : ℕ
version_number = 10000

-- STDIOBUS_KERNEL_API_VERSION
abbrev pub kernel_api_version : ℕ
kernel_api_version = 2

abbrev pub kernel_compatible : Bool
kernel_compatible = stdio_bus_embed_api_version == kernel_api_version
