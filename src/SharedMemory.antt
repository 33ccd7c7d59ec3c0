-- ===== src/SharedMemory.antt =====
-- UnixSharedMemory.c: a child that leaves a text for its parent in a System V segment.
pub mod Segment
pub mod Removed
mod Tests
