-- ===== src/SpinLock.antt =====
-- UnixSpinLocks.c.
pub mod Threads
pub mod Exclusion
mod Tests
