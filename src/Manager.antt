-- ===== src/Manager.antt =====
-- contracts/tla-manager: the contract of one TLA, which creates the sub-accounts under it.
pub mod Errors
pub mod Types
pub mod Minting
