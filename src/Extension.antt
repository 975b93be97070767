-- ===== src/Extension.antt =====
-- contracts/hos-extension: the transfer of a wallet to a new owner, and the sweep of its tokens.
pub mod Errors
pub mod Types
pub mod Admin
pub mod Transfers
pub mod Sweeps
