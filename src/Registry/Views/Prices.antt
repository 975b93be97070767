-- ===== src/Registry/Views/Prices.antt =====
-- contracts/tla-registry/src/views.rs and business.rs: the prices that the contract quotes.
use hos_tla_contracts.Base.{
  Text, contains_key, ensure, if◌then◌else◌, length, lookup, ok, ok_or, sat_add, u128_max, ◌%◌,
  ◌>>=◌, ◌>>◌,
}
use hos_tla_contracts.Registry.Business.{business_count}
use hos_tla_contracts.Registry.Errors.{Reply, not_business_tla, tla_not_found}
use hos_tla_contracts.Registry.Fees.{base_rent, calculate_rent}
use hos_tla_contracts.Registry.Names.{sub_account_key}
use hos_tla_contracts.Registry.State.{TlaRegistry}
use hos_tla_contracts.Registry.Types.{is_business}
use hos_tla_contracts.Registry.Views.Records.{BusinessRenewalCostView, RentPriceView}

unfoldable pub get_rent_price : Text → Text → TlaRegistry → Reply RentPriceView
get_rent_price tla_id name s = do
  tla ← ok_or (lookup tla_id s.tlas) tla_not_found
  let rent = calculate_rent tla tla_id name s.fee_config
  let key = sub_account_key tla_id name
  let deposit = if contains_key key s.parked_names then 0 else s.fee_config.account_creation_deposit
  ok (record {
    rent_yocto = rent;
    creation_deposit_yocto = deposit;
    total_yocto = sat_add u128_max rent deposit;
  })

unfoldable pub get_business_renewal_cost : Text → TlaRegistry → Reply BusinessRenewalCostView
unfolding is_business business_count
get_business_renewal_cost tla_id s = do
  tla ← ok_or (lookup tla_id s.tlas) tla_not_found
  ensure (is_business tla.tla_type) not_business_tla
  let tla_rent = base_rent (length tla_id % 256) s.fee_config
  ok (record {
    tla_id = tla_id;
    tla_rent_yocto = tla_rent;
    per_sub_yocto = s.fee_config.sub_fee_per_account;
    sub_count = business_count tla_id s;
    total_yocto = tla_rent;
  })
