-- ===== src/Types.antt =====
-- The data types of crates/core/src/types, one module to a file of that folder; a balance has its
-- own. Identifiers, prices, quantities and times are numbers, as the aliases of types/mod.rs say.
pub mod Balance
pub mod Account
pub mod Order
pub mod Market
pub mod Position
pub mod Transaction
mod Tests
