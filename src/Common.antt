-- ===== src/Common.antt =====
-- crates/hos-common: the helpers that the contracts share.
pub mod Keys
pub mod Tx
