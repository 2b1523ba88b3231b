-- ===== src/Merkle.antt =====
-- The Merkle commitment to the state: crates/core/src/merkle.
pub mod External
pub mod Tree
pub mod Hypertree
mod Tests
