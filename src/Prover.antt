-- ===== src/Prover.antt =====
-- Proofs of batches: the types that host and guest share, the host, and the guest program.
pub mod Batch
pub mod Host
pub mod Guest
pub mod Journal
pub mod Agreement
mod Tests
