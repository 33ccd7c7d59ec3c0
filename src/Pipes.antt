-- ===== src/Pipes.antt =====
-- Pipes.c: a parent that writes a message into a pipe(2) and a child that prints it.
pub mod Processes
pub mod Invariant
pub mod Steps
pub mod Runs
pub mod Tests
