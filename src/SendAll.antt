-- ===== src/SendAll.antt =====
-- UnixSocketSendAllBytes.c.
pub mod Rounds
mod Tests
