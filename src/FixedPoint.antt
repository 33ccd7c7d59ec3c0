-- ===== src/FixedPoint.antt =====
-- QuickAndDirtyPortableFloatingPoint.c.
pub mod Convert
mod Tests
