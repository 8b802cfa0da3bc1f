-- ===== src/Miner.antt =====
-- internal/miner: the search for a nonce.
pub mod Midstate
pub mod Target
pub mod Kernel
pub mod Backend
pub mod Workers
pub mod Rounds
