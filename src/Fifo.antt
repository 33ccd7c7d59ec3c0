-- ===== src/Fifo.antt =====
-- FIFO.c: a child that writes a message into a named pipe, and a parent that prints it.
pub mod Processes
pub mod Flow
pub mod Ends
pub mod Tests
