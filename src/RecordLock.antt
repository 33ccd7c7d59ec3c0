-- ===== src/RecordLock.antt =====
-- UnixRecordLocking.c: a read lock of a parent on the end of a file, and its child.
pub mod Processes
pub mod Kept
pub mod Tests
