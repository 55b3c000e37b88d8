-- ===== src/Net.antt =====
-- The network, src/net.
pub mod P2p
