-- ===== src/State/Laws.antt =====
-- What the transitions of the global state guarantee.
pub mod Deposits
pub mod Refusals
pub mod Custody
pub mod Replay
pub mod Liquidations
