-- ===== src/BitOrder.antt =====
-- EndiannessConversion.c and Bitmasks.c.
mod Bytes
pub mod Reverse
pub mod Masks
mod Tests
