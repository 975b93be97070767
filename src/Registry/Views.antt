-- ===== src/Registry/Views.antt =====
-- What contracts/tla-registry answers without changing its state.
pub mod Records
pub mod Lookups
pub mod Prices
pub mod Quotes
