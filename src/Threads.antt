-- ===== src/Threads.antt =====
-- What the programs with POSIX threads share: steps of single threads in any order, and the loops
-- that create and join them.
pub mod Schedule
pub mod Totals
pub mod Start
pub mod Posix
pub mod Pair
