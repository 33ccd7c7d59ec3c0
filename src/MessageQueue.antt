-- ===== src/MessageQueue.antt =====
-- SystemVMessageQueues.c: a child sends a message to its parent through a System V queue.
pub mod Processes
pub mod Received
pub mod Tests
