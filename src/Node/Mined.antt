-- ===== src/Node/Mined.antt =====
-- A block that was mined on a node: it passes the node's checks, and becomes its tip.
pub mod Chosen
pub mod Checked
pub mod Accepted
pub mod Tip
