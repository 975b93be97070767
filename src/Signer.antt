-- ===== src/Signer.antt =====
-- contracts/active-signer: the keys that operate the rented accounts, and what they may sign.
pub mod Errors
pub mod Types
pub mod Payloads
pub mod Owners
pub mod Signing
pub mod System
pub mod Wallets
pub mod Life
pub mod Freezing
pub mod Replay
pub mod Wording
