-- ===== src/Semaphore.antt =====
-- UnixSemaphores.c.
pub mod Threads
pub mod Limit
pub mod Calm
pub mod Race
mod Tests
