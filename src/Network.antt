-- ===== src/Network.antt =====
-- The network layer (src/network).
pub mod Nic
pub mod RawSocket
