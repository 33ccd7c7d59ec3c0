-- ===== src/Paths.antt =====
-- Exec.c and FileIO.c: paths that are built in fixed memory.
pub mod Build
pub mod Exec
pub mod FileIo
pub mod Tests
