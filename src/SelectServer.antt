-- ===== src/SelectServer.antt =====
-- UnixStreamTelnetServerWithSelect.c: the chat server on select(2).
pub mod Text
pub mod Loop
pub mod Memory
pub mod Members
pub mod Invariant
pub mod Messages
pub mod Greetings
pub mod Turns
pub mod Chat
pub mod Limit
mod Tests
