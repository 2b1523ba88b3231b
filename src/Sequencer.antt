-- ===== src/Sequencer.antt =====
-- The sequencer: sequencer/src/lib.rs.
pub mod Node
pub mod Submit
pub mod Batches
pub mod Chain
pub mod Mempool
pub mod Authority
pub mod Pending
mod Tests
