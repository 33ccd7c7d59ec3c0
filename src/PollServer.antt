-- ===== src/PollServer.antt =====
-- TelnetServerPollingFileDescriptorsWithUnixStreamStreamSockets.c: the chat server on poll(2).
pub mod Table
pub mod Refine
pub mod Serving
pub mod Walk
pub mod Quiet
pub mod Run
mod Tests
pub mod Round
