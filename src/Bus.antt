-- ===== src/Bus.antt =====
-- src/bus.cpp and include/stdiobus/bus.hpp: Bus, its Impl and the callback trampolines. The state
-- and the trampolines are in `Machine`, the constructors, the destructor and the moves in
-- `Lifetime`, the operations and queries in `Calls`, and the builder in `Builder`.
pub mod Machine
pub mod Lifetime
pub mod Calls
pub mod Builder
pub mod Delivery
pub mod Behaviour
pub mod Lifecycle
pub mod Program
pub mod Configuration
pub mod Safe
pub mod Returns
pub mod Scope
pub mod Reentrant
pub mod Transcript
