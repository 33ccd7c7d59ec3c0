-- ===== src/Children.antt =====
-- The handlers of SIGCHLD in UnixStreamSocketServer.c and UnixRawNetworkLayerSocketServer.c.
pub mod Handler
pub mod Reaped
mod Tests
