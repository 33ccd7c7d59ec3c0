-- ===== src/Telnet.antt =====
-- The chat client UnixTelnetClient.c once it is connected.
pub mod Reader
pub mod Sender
pub mod Chat
pub mod PollChat
mod Tests
