-- ===== src/Sockets.antt =====
-- How the socket programs get their descriptor: getaddrinfo(3), a walk over its list with
-- socket(2), setsockopt(2), bind(2) or connect(2), and listen(2).
pub mod Walk
pub mod First
pub mod BindOrClose
pub mod PollListener
pub mod SelectListener
pub mod FileListener
pub mod RawListener
pub mod StreamServer
pub mod StreamRun
pub mod TelnetClient
pub mod Datagram
pub mod StreamClient
pub mod AddressList
pub mod PeerAddress
pub mod UnixSocket
pub mod Broadcaster
mod Tests
mod LocalTests
