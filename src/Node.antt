-- ===== src/Node.antt =====
-- internal/node/node.go: the block tree, the choice of the active chain, the mempool, and sync.
pub mod Data
pub mod Tree
pub mod Pool
pub mod Switch
pub mod Insert
pub mod Transactions
pub mod Sync
pub mod Wallet
pub mod Network
pub mod Tips
pub mod Boot
pub mod Run
pub mod Ledger
pub mod Mined
