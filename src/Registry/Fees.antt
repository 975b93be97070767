-- ===== src/Registry/Fees.antt =====
-- contracts/tla-registry/src/fees.rs
use hos_tla_contracts.Base.{Text, if◌then◌else◌, leb, min, sat_mul, u128_max, ℕ, ◌*◌, ◌-◌, ◌/◌}
use hos_tla_contracts.Registry.Names.{total_name_length}
use hos_tla_contracts.Registry.Types.{
  FeeConfig, PremiumCategory, TlaEntry, business, multiplier, one_near, open_tla,
}

unfoldable pub base_rent : ℕ → FeeConfig → ℕ
base_rent total_len config =
    if leb total_len 5
    then config.rent_tier_5
    else if leb total_len 8
    then config.rent_tier_8
    else if leb total_len 10
    then config.rent_tier_10
    else config.rent_tier_12plus

unfoldable pub sub_account_rent : ℕ → PremiumCategory → FeeConfig → ℕ
unfolding base_rent multiplier
sub_account_rent total_len premium_category config =
    let base = base_rent total_len config in
    let (num, den) = multiplier premium_category in sat_mul u128_max base num / den

-- Commission and the seller's proceeds.
unfoldable pub split_resale : ℕ → ℕ → ℕ × ℕ
split_resale price commission_bps =
    let commission = min (sat_mul u128_max price commission_bps / 10000) price in
    (commission, price - commission)

unfoldable pub calculate_rent : TlaEntry → Text → Text → FeeConfig → ℕ
unfolding sub_account_rent total_name_length
calculate_rent tla tla_id name config = elim tla.tla_type [
  | business ↦ config.sub_fee_per_account
  | open_tla ↦ sub_account_rent (total_name_length tla_id name) tla.premium_category config
]

unfoldable pub default_fee_config : FeeConfig
default_fee_config = record {
  tla_allocation_fee = 1000 * one_near;
  rent_tier_5 = 50 * one_near;
  rent_tier_8 = 20 * one_near;
  rent_tier_10 = 10 * one_near;
  rent_tier_12plus = 5 * one_near;
  sub_fee_per_account = one_near / 2;
  account_creation_deposit = one_near / 100;
  business_max_subs = 1000;
  retraction_notice_ns = 7 * 24 * 60 * 60 * 1000000000;
  resale_commission_bps = 0;
}
