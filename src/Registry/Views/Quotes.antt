-- ===== src/Registry/Views/Quotes.antt =====
-- The quoted prices against what the calls charge.
use hos_tla_contracts.Base.{
  Bool-cases, Option-cases, Result-cases, Text, arith, err, false, inl, inr, is_ok, leb, length,
  lookup, ok, refl, sat_add, sat_mul, some, u128_max, ℕ, ◌%◌, ◌<◌, ◌≡◌, ◌≢◌, ◌≤◌, ◌⊎◌,
}
use hos_tla_contracts.Host.{Host, PublicKey}
use hos_tla_contracts.Registry.Business.{business_count, business_count_check_and_bump}
use hos_tla_contracts.Registry.Errors.{
  ContractError, insufficient_payment, max_business_subs_reached, not_business_tla,
}
use hos_tla_contracts.Registry.Fees.{base_rent, calculate_rent, sub_account_rent}
use hos_tla_contracts.Registry.Mother.{ensure_mother_default}
use hos_tla_contracts.Registry.Names.{sub_account_key, total_name_length}
use hos_tla_contracts.Registry.Renewal.{renew_sub_account, renew_tla}
use hos_tla_contracts.Registry.Rental.{bump_if_business, rent_sub_account}
use hos_tla_contracts.Registry.State.{TlaRegistry}
use hos_tla_contracts.Registry.Types.{
  FeeConfig, PremiumCategory, TlaEntry, business, community, legendary, multiplier, open_tla,
  premium, standard, tla_type_cases,
}
use hos_tla_contracts.Registry.Views.Lookups.{get_sub_account, get_tla, to_sub_view, to_tla_view}
use hos_tla_contracts.Registry.Views.Prices.{get_business_renewal_cost, get_rent_price}
use hos_tla_contracts.Registry.Views.Records.{
  BusinessRenewalCostView, RentPriceView, SubAccountView, TlaView,
}

sub_account_rent_bound :
    (len : ℕ) (category : PremiumCategory) (config : FeeConfig)
    → sub_account_rent len category config ≤ u128_max
unfolding sub_account_rent sat_mul multiplier
sub_account_rent_bound len legendary config = ground arith
sub_account_rent_bound len premium config = ground arith
sub_account_rent_bound len standard config = ground arith
sub_account_rent_bound len community config = ground arith

calculate_rent_bound :
    (tla : TlaEntry) (tla_id name : Text) (config : FeeConfig)
    → config.sub_fee_per_account ≤ u128_max
    → calculate_rent tla tla_id name config ≤ u128_max
unfolding calculate_rent
calculate_rent_bound tla tla_id name config h =
    ground
      (arith, sub_account_rent_bound (total_name_length tla_id name) tla.premium_category config)

full_or_bumped :
    (tla_id : Text) (tla : TlaEntry) (s : TlaRegistry) (e : ContractError)
    → bump_if_business tla_id tla s ≡ err e
    → e ≡ max_business_subs_reached
unfolding bump_if_business business_count_check_and_bump
full_or_bumped tla_id tla s e h = ground arith

-- The deposit covers the quote and the rental is not refused for the payment, or it is below the quote
-- and the rental does not go through.
abbrev pub IsQuoted : Host → Text → Text → PublicKey → Text → TlaRegistry → ℕ → Type 0
IsQuoted env tla_id name owner_key main_wallet s total =
    let r = rent_sub_account env tla_id name owner_key main_wallet s in
    ((total ≤ env.attached_deposit) × (r ≢ err insufficient_payment))
    ⊎ ((env.attached_deposit < total) × (is_ok r ≡ false))

-- With a sub-account fee that fits a u128, the quoted total is exactly the payment that a rental
-- asks for: either the deposit covers it and the rental is not refused for the payment, or the
-- deposit is below it and the rental does not go through.
pub rent_price_exact :
    (env : Host) (tla_id name : Text) (owner_key : PublicKey) (main_wallet : Text) (s : TlaRegistry)
    (v : RentPriceView)
    → s.fee_config.sub_fee_per_account ≤ u128_max
    → get_rent_price tla_id name s ≡ ok v
    → IsQuoted env tla_id name owner_key main_wallet s v.total_yocto
unfolding get_rent_price rent_sub_account sat_add
rent_price_exact env tla_id name owner_key main_wallet s v h quoted =
    elim (Option-cases (lookup tla_id s.tlas)) [
      | inl unknown ↦ ground arith
      | inr (tla, found) ↦ elim (Bool-cases (leb v.total_yocto env.attached_deposit)) [
        | inl enough ↦ inl (
          ground arith,
          λ e.
              elim (Result-cases
                (bump_if_business tla_id tla (ensure_mother_default env.predecessor s))) [
                  | inr (e', full) ↦ ground (
                    arith,
                    full_or_bumped tla_id tla (ensure_mother_default env.predecessor s) e' full,
                    calculate_rent_bound tla tla_id name s.fee_config h,
                  )
                  | inl (bumped, counted) ↦
                      ground (arith, calculate_rent_bound tla tla_id name s.fee_config h)
                ],
        )
        | inr short ↦
            inr (ground arith, ground (arith, calculate_rent_bound tla tla_id name s.fee_config h))
      ]
    ]

-- What a renewal adds to the revenue.
abbrev pub Charges : ℕ → Host → TlaRegistry → TlaRegistry → Type 0
Charges price env s s' =
    (price ≤ env.attached_deposit) × (s'.total_revenue ≡ sat_add u128_max s.total_revenue price)

-- The quote of a renewal: an open TLA has none, and a business one has the price.
abbrev pub BusinessQuote : Text → TlaEntry → TlaRegistry → ℕ → Type 0
BusinessQuote tla_id tla s price =
    ((tla.tla_type ≡ open_tla) × (get_business_renewal_cost tla_id s ≡ err not_business_tla))
    ⊎ ((q : BusinessRenewalCostView) × (tla.tla_type ≡ business)
        × (get_business_renewal_cost tla_id s ≡ ok q)
        × (q.total_yocto ≡ price))

-- A renewal of a TLA that goes through had a view, was paid at least the annual rent of the view,
-- and added that rent to the revenue, saturating; the quoted cost of renewing a business TLA is
-- the same amount, and an open TLA has no such quote.
pub renewal_quoted :
    (env : Host) (tla_id : Text) (s s' : TlaRegistry)
    → renew_tla env tla_id s ≡ ok s'
    → (tla : TlaEntry) × (v : TlaView) × (lookup tla_id s.tlas ≡ some tla)
      × (get_tla env tla_id s ≡ some v)
      × Charges v.annual_rent env s s'
      × BusinessQuote tla_id tla s v.annual_rent
unfolding renew_tla get_tla get_business_renewal_cost
renewal_quoted env tla_id s s' renewed = elim (Option-cases (lookup tla_id s.tlas)) [
  | inl unknown ↦ ground arith
  | inr (tla, found) ↦ (
    tla,
    to_tla_view env tla_id tla s.fee_config s.grace_period_ns,
    found,
    ground arith,
    (ground arith, ground arith),
    elim (tla_type_cases tla.tla_type) [
      | inl (is_one, sub_tla) ↦ inr (
        record {
          tla_id = tla_id;
          tla_rent_yocto = base_rent (length tla_id % 256) s.fee_config;
          per_sub_yocto = s.fee_config.sub_fee_per_account;
          sub_count = business_count tla_id s;
          total_yocto = base_rent (length tla_id % 256) s.fee_config;
        },
        is_one,
        ground arith,
        refl,
      )
      | inr (is_open, no_business) ↦ inl (is_open, ground arith)
    ],
  )
]

pub sub_renewal_quoted :
    (env : Host) (tla_id name : Text) (s s' : TlaRegistry)
    → renew_sub_account env tla_id name s ≡ ok s'
    → (v : SubAccountView) × (get_sub_account env tla_id name s ≡ some v)
      × Charges v.annual_rent env s s'
unfolding renew_sub_account get_sub_account mathlib.Core.Option.bind
sub_renewal_quoted env tla_id name s s' renewed =
    elim (Option-cases (lookup (sub_account_key tla_id name) s.sub_accounts)) [
      | inl unknown ↦ ground arith
      | inr (sub, found) ↦ elim (Option-cases (lookup tla_id s.tlas)) [
        | inl unknown ↦ ground arith
        | inr (tla, tla_found) ↦ (
          to_sub_view env (sub_account_key tla_id name) sub tla tla_id name s.fee_config
              s.grace_period_ns,
          rw (found, tla_found) refl,
          (ground arith, ground arith),
        )
      ]
    ]
