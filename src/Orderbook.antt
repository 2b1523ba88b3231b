-- ===== src/Orderbook.antt =====
-- The order book and the matching engine: crates/orderbook/src.
pub mod Level
pub mod Book
pub mod Matching
mod Tests
