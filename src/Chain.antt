-- ===== src/Chain.antt =====
-- internal/chain: the data of the chain and its rules.
pub mod Codec
pub mod Params
pub mod Amount
pub mod Tx
pub mod Block
pub mod HashText
pub mod Difficulty
