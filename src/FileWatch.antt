-- ===== src/FileWatch.antt =====
-- UnixFileEventWatching.c.
pub mod Events
pub mod Notices
mod Tests
