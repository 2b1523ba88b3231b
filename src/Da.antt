-- ===== src/Da.antt =====
-- The append-only log of batches and proofs: crates/da/src/lib.rs.
pub mod Files
pub mod Log
pub mod Cache
pub mod Saving
pub mod Append
pub mod Chain
pub mod Proofs
pub mod Sample
mod Tests
