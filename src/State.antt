-- ===== src/State.antt =====
-- The global state and its transitions: crates/state/src/lib.rs.
pub mod Global
pub mod Funds
pub mod Fills
pub mod Orders
pub mod Liquidation
pub mod Process
pub mod Laws
pub mod Tests
