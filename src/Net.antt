-- ===== src/Net.antt =====
-- src/net_utils.cpp: the blocking transfers and the handshake of reverse mode.
pub mod Transfer
pub mod Handshake
pub mod Delivery
pub mod RoundTrip
pub mod Sockets
pub mod Buffers
mod Tests
