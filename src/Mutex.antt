-- ===== src/Mutex.antt =====
-- UnixMutex.c.
pub mod Threads
pub mod Exclusion
pub mod Runs
mod Tests
