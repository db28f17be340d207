-- ===== src/UdpEcho.antt =====
-- src/udp-echo/main.c, the UDP echo client and server of the VPP host stack.
pub mod Ip6
pub mod Vpp
pub mod Session
pub mod Options
pub mod Client
pub mod Server
pub mod Control
pub mod Echo
pub mod CutThrough
pub mod Send
pub mod Main
pub mod Data
mod Tests
