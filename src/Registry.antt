-- ===== src/Registry.antt =====
-- contracts/tla-registry: the marketplace orchestrator.
pub mod Errors
pub mod Types
pub mod Names
pub mod Fees
pub mod State
pub mod Promises
pub mod AssetGate
pub mod Balances
pub mod Mother
pub mod Business
pub mod Rental
pub mod Renewal
pub mod Minting
pub mod Sales
pub mod Listings
pub mod Buying
pub mod Reclaim
pub mod Admin
pub mod Pricing
pub mod NameKeys
pub mod Lifetime
pub mod Money
pub mod SaleLock
pub mod SalePromise
pub mod SaleTerms
pub mod Handover
pub mod System
pub mod RentalChecks
pub mod RentalTerms
pub mod RentalRules
pub mod Views
