-- ===== src/Authentication.antt =====
-- UnixUserAuthentication.c.
pub mod Login
mod Tests
