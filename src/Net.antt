-- ===== src/Net.antt =====
-- The network stack of kernel/net.
pub mod Link
pub mod Arp
pub mod Udp
pub mod Ip
pub mod Dns
mod Tests
