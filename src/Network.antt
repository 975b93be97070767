-- ===== src/Network.antt =====
-- The contracts together: what a chain of calls and callbacks across them does.
pub mod Mints
pub mod MintProof
pub mod Rentals
pub mod Transfers
pub mod Moving
pub mod Atomicity
pub mod Sweeps
pub mod SweepProof
pub mod Recoveries
pub mod Rescue
pub mod Parking
pub mod FrozenParking
