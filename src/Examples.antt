-- ===== src/Examples.antt =====
-- The programs of examples/: basic.cpp, builder.cpp, runner.cpp and async.cpp. What they print is
-- the application's state. A program reads the clock or is asked by a signal at each round of its
-- loop: the readings are arguments, and a program that is still in its loop when they are used up
-- has no exit code yet.
pub mod Console
pub mod Basic
pub mod Builder
pub mod Runner
pub mod Async
