-- ===== src/Files.antt =====
-- The programs on one file: MemoryMapping.c and GettingAndModifyingLocationInFile.c.
pub mod Mapping
pub mod Position
mod Tests
