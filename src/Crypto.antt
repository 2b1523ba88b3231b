-- ===== src/Crypto.antt =====
-- Keys, signatures and hexadecimal text: crates/core/src/crypto.rs.
pub mod Hex
pub mod Keys
mod Tests
