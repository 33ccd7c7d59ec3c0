-- ===== src/Raw.antt =====
-- UnixRawNetworkLayerSocketServer.c beside its listener: checksums and packets.
pub mod Checksum
pub mod Verify
pub mod Packets
pub mod Exclusive
pub mod Server
mod Tests
