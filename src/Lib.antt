-- ===== src/Lib.antt =====
-- The stdiobus C++ SDK: RAII and asynchronous wrappers around the stdio_bus kernel library.
--
-- The program has three layers. The kernel is a C library behind prebuilds/include/stdio_bus_embed.h,
-- and its code is not in the repository. class Bus (include/stdiobus/bus.hpp, src/bus.cpp) owns one
-- kernel instance and passes its callbacks to std::functions. class AsyncBus
-- (include/stdiobus/async.hpp) owns a Bus, gives each request an id and a future, and settles the
-- future from the Bus's message callback.
--
-- Files and code:
--   ErrorCode, Error: include/stdiobus/error.hpp.
--   Types: include/stdiobus/types.hpp.
--   Version: include/stdiobus/version.hpp, with kernel_compatible of src/bus.cpp.
--   Embed: the constants and structs of the C header. Embed/Kernel: its functions as a record that
--     the definitions take as a parameter, and the contract that its documentation states.
--   Ffi, Ffi/Handle: include/stdiobus/ffi.hpp.
--   Bus/Machine: Bus::Impl, the six trampolines, and the machine a Bus works on. Bus/Lifetime: the
--     constructors, the destructor and the moves. Bus/Calls: the operations, queries and callback
--     setters. Bus/Builder: BusBuilder, with chains of setters in Bus/Builder/Settings.
--     Bus/Delivery, Bus/Behaviour, Bus/Lifecycle, Bus/Transcript and Bus/Configuration hold the proofs
--     about one Bus.
--     Bus/Program and the files below it are about programs with several Bus variables. Bus/Safe
--     and Bus/Returns have rules for code that uses one Bus, and Bus/Scope a Bus variable of
--     automatic storage.
--     Bus/Reentrant: the operations and the trampolines again, for callbacks that call the Bus while
--     it is in a call of the kernel, with such callbacks in Bus/Reentrant/Callbacks.
--   Async/Id, Async/Id/Decimal: extract_id, extract_or_inject_id, and the text of a counter value.
--     Async/Table: pending_. Async/Pending: the critical sections of AsyncBus on its members.
--     Async/Client: the methods of AsyncBus over a Bus. The files below each hold the proofs.
--     Async/Pending/Spec says what AsyncBus promises of each future, without the table, and
--     Async/Pending/View how the members show those futures.
--     Async/Client/Events: the events that the kernel's callbacks and return codes make for the
--     futures. Async/Client/Fate: what becomes of one future meanwhile.
--     Async/Client/Session: sequences of calls, and in the files below it the trace of events that
--     they stand for.
--     Async/Client/Destroyed: the destructor.
--     Async/Threads: threads in request_async, check_timeouts and the message handler, step by step.
--     Async/Reentrant: the methods of AsyncBus for callbacks that call them, over Bus/Reentrant.
--     Async/Deadline: steady_clock::now() + timeout in 64-bit nanoseconds.
--   Examples/Console: the lines that the examples print. Examples/Basic, Examples/Builder,
--     Examples/Runner and Examples/Async: the main functions of basic.cpp, builder.cpp, runner.cpp and
--     async.cpp in examples/, with runner.cpp's argument loop in Examples/Runner/Arguments. The Ends
--     file below each has the proofs, with Async/Client/Runs for code on one AsyncBus.
--   Prelude: shared helpers. Tests: a small kernel that keeps the contract, and concrete runs.
--
-- How the model stands for the code:
--   A kernel call takes the kernel's state and gives its result, the new state and the callbacks it
--   made, in order. The callbacks run before the call returns, as in the code, on the Impl that their
--   user_data points to. A callback may change the application's state and does not call back into
--   the Bus, but for Bus/Reentrant: there a call of the kernel returns, or makes a callback and goes
--   on with the state in which the callback leaves the kernel, and a callback is a tree of changes,
--   calls on the Bus and setters. To set a callback that is running counts as undefined there, since
--   the assignment destroys the function whose code goes on behind it. docs/02-core-concepts forbids
--   a callback to set callbacks and to call start, step or stop, so the callbacks of the theorems send
--   messages and read the state.
--   Async/Reentrant takes the mutex and releases it in steps of their own; the mutex is not recursive.
--   std::unique_ptr<Impl> is null or an address in a heap; addresses are not used again. The result
--   `none` of an action stands for undefined behaviour (a null or dangling pointer is used), and in
--   Async/Pending for a std::future_error. In Examples/Async it also stands for a get that blocks.
--   A std::promise with its future is a number with a shared state: waiting, ready or broken. An
--   unordered_map is an association list; the order of iteration is that of the list. What a method
--   of AsyncBus does under pending_mutex_ is one step, so interleavings of threads are lists of steps.
--   Async/Threads gives each thread a place in its method, and also puts the atomic next_id_++ and the
--   send into steps of their own.
--   Strings are lists of bytes; c_str() of one is read up to the first NUL. std::isdigit is the test for the ASCII digits. next_id_ wraps at 2^64.
--   Durations and time points are unbounded integers in one unit, cut to an int where the code casts
--   them; in Async/Deadline a sum beyond 64 bits has no value.
--   The readings of the clock and the signals that the examples' loops meet are lists with one entry for
--   each round; a loop whose list is at its end is still running. A signal is handled between two
--   rounds. The text of std::atoi has ASCII blanks and digits; a value outside int is undefined.
--   Members of the AsyncBus that are gone are absent: a handler that uses them leaves a mark, and in
--   Examples/Async the end of the scope is then undefined.
--   Fuel bounds only the depth of calls within calls in Bus/Reentrant: one level is enough for
--   callbacks that make no call of the Bus. Callbacks that send have no bound, for the kernel may call
--   back in a send; what is said of them holds at every depth. Other loops are recursion on a list or
--   a count, and std::to_string is recursion on the order of the naturals.
--
-- Not modelled: the kernel library; the functions of the C header that register embedded workers, which
-- the SDK does not call; include/stdiobus/export.hpp and include/stdiobus.hpp, which hold macros and
-- includes; the benchmark, the end-to-end application and the tests, which are programs around the
-- SDK; callbacks that destroy or move the Bus they run in, or throw; data races of threads that use one
-- Bus at once, which the README excludes; memory exhaustion.
pub mod Prelude
pub mod ErrorCode
pub mod Types
pub mod Embed
pub mod Ffi
pub mod Error
pub mod Bus
pub mod Async
pub mod Version
pub mod Tests
pub mod Examples
