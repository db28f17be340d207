-- ===== src/FpSock.antt =====
-- src/fp-sock: the OFP echo application.
pub mod Startup
pub mod Options
pub mod Sockets
pub mod Udp
pub mod Datagrams
pub mod Perf
pub mod Hook
pub mod Tcp
mod Tests
