-- ===== src/FileTransfer.antt =====
-- The file transfer over TCP: UnixFileTransferStreamClient.c and UnixFileTransferStreamServer.c.
pub mod Connect
pub mod Send
pub mod Receive
pub mod Transfer
mod Tests
