-- ===== src/Async.antt =====
-- include/stdiobus/async.hpp: AsyncBus. `Id` finds and injects request ids, `Pending` is the table of
-- pending requests with the promises, `Client` puts them over a Bus.
pub mod Id
pub mod Table
pub mod Pending
pub mod Client
pub mod Threads
pub mod Deadline
pub mod Reentrant
