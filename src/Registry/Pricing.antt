-- ===== src/Registry/Pricing.antt =====
-- Rents and the split of a resale (contracts/tla-registry/src/fees.rs).
use hos_tla_contracts.Base.{arith, sat_mul, u128_max, ℕ, ◌*◌, ◌+◌, ◌/◌, ◌≡◌, ◌≤◌}
use hos_tla_contracts.Registry.Fees.{base_rent, split_resale, sub_account_rent}
use hos_tla_contracts.Registry.Types.{FeeConfig, PremiumCategory, legendary, multiplier}

-- The commission and the proceeds of a resale add up to the price and the commission is at most
-- the price; where price times rate fits a u128 and the rate is at most 10000, the commission is
-- the share rounded down.
pub split_resale_conserves :
    (price bps : ℕ)
    → let (commission, proceeds) = split_resale price bps in
      (commission + proceeds ≡ price)
      × (commission ≤ price)
      × (price * bps ≤ u128_max → bps ≤ 10000 → commission ≡ price * bps / 10000)
unfolding split_resale sat_mul
split_resale_conserves price bps = (
  omega arith,
  omega arith,
  λ fits rate. let m : price * bps ≤ price * 10000 = grind arith in omega arith,
)

-- The tiers of a fee configuration that charges longer names no more than shorter ones.
abbrev pub IsDescending : FeeConfig → Type 0
IsDescending config =
    (config.rent_tier_12plus ≤ config.rent_tier_10)
    × (config.rent_tier_10 ≤ config.rent_tier_8)
    × (config.rent_tier_8 ≤ config.rent_tier_5)

-- Under a fee configuration whose tiers do not rise with length, a longer name costs no more
-- rent, in every category.
pub sub_account_rent_antitone :
    (config : FeeConfig) (category : PremiumCategory) (m n : ℕ)
    → IsDescending config
    → m ≤ n
    → sub_account_rent n category config ≤ sub_account_rent m category config
unfolding sub_account_rent base_rent multiplier sat_mul
sub_account_rent_antitone config legendary m n d h = ground arith
sub_account_rent_antitone config _ m n d h = ground arith
