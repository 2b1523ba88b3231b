-- ===== src/Verifier.antt =====
-- The verifier: verifier/src/lib.rs.
pub mod Node
pub mod Accepts
pub mod Progress
pub mod Pending
pub mod Ready
pub mod Liveness
mod Tests
