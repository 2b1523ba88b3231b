-- ===== src/Oracle.antt =====
-- The price sources: crates/oracle/src/lib.rs.
pub mod Sources
pub mod Mock
pub mod Simulated
pub mod Aggregator
pub mod Median
mod Tests
