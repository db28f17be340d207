-- ===== src/VclServer.antt =====
-- src/vcl-test-server/main.c, the VCL test server.
pub mod Pool
pub mod Server
pub mod Loop
pub mod Options
pub mod Worker
pub mod Udp
pub mod Threads
mod Tests
