-- ===== src/Heap.antt =====
-- MemoryManagement.c.
pub mod Blocks
pub mod Reallocated
pub mod Family
pub mod Filled
pub mod Printed
pub mod Chain
mod Tests
