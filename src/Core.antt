-- ===== src/Core.antt =====
-- The blockchain itself (src/core): blocks and transactions, the state, and the consensus.
pub mod Chain
pub mod State
pub mod Rdpos
pub mod Storage
