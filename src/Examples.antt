-- ===== src/Examples.antt =====
-- Concrete states, runs of the model on them, and the theorems at concrete inputs.
pub mod Network
mod Parking
mod Rescue
mod Views
pub mod Fixtures
mod Pricing
mod Money
mod Sales
mod System
pub mod Signer
mod Tx
pub mod Recovery
