-- ===== src/Residence.antt =====
-- MemoryResidence.c.
pub mod Pages
mod Tests
