-- ===== src/Recovery.antt =====
-- contracts/mpc-recovery: recovery of an account by attestation, timelock and a quorum of watchers.
pub mod Errors
pub mod Types
pub mod Proof
pub mod Opening
pub mod Deciding
pub mod Quorum
pub mod System
pub mod Rounds
pub mod Attestations
pub mod Finalizing
pub mod Phases
pub mod PhaseRuns
pub mod Lifecycle
