-- ===== src/Tests.antt =====
-- Concrete runs: a small kernel that keeps the contract, and the theorems at concrete inputs.
pub mod Echo
pub mod Buses
pub mod Clients
pub mod Requests
pub mod Ids
pub mod Codes
pub mod Sessions
pub mod Programs
pub mod Threads
pub mod Transcripts
pub mod Deadlines
pub mod Reentrant
pub mod Callbacks
