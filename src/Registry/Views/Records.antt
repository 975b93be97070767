-- ===== src/Registry/Views/Records.antt =====
-- contracts/tla-registry/src/types.rs and views.rs: the results of the views.
use hos_tla_contracts.Base.{Bool, Option, Text, ℕ}
use hos_tla_contracts.Registry.Types.{LifecycleStatus, PremiumCategory, TlaType}

pub record TlaView : Type 0 where
  pub tla_id : Text
  pub tla_type : TlaType
  pub lifecycle : LifecycleStatus
  pub licensee : Option Text
  pub premium_category : PremiumCategory
  pub activated_at : ℕ
  pub expires_at : ℕ
  pub annual_rent : ℕ

pub record SubAccountView : Type 0 where
  pub full_name : Text
  pub owner : Text
  pub tla_id : Text
  pub main_wallet : Text
  pub lifecycle : LifecycleStatus
  pub rented_at : ℕ
  pub expires_at : ℕ
  pub annual_rent : ℕ

pub record ParkedSubAccountView : Type 0 where
  pub full_name : Text
  pub tla_id : Text
  pub parked_at : ℕ

pub record ListingView : Type 0 where
  pub full_name : Text
  pub price_yocto : ℕ
  pub settling : Bool

pub record AcceptedOfferView : Type 0 where
  pub full_name : Text
  pub buyer : Text
  pub price_yocto : ℕ
  pub settling : Bool

pub record RentPriceView : Type 0 where
  pub rent_yocto : ℕ
  pub creation_deposit_yocto : ℕ
  pub total_yocto : ℕ

pub record RegistryStats : Type 0 where
  pub tla_count : ℕ
  pub sub_account_count : ℕ
  pub total_revenue_yocto : ℕ
  pub total_pending_refunds_yocto : ℕ

pub record BusinessRenewalCostView : Type 0 where
  pub tla_id : Text
  pub tla_rent_yocto : ℕ
  pub per_sub_yocto : ℕ
  pub sub_count : ℕ
  pub total_yocto : ℕ
