-- ===== src/Registry/Rental.antt =====
-- contracts/tla-registry/src/rental.rs: activation, rental and renewal.
use hos_tla_contracts.Base.{
  Text, [], contains_key, ensure, if◌then◌else◌, insert, length, lookup, ltb, none, ok, ok_or,
  reject, sat_add, some, text_eq, u128_max, u64_max, ℕ, ◌%◌, ◌>>=◌, ◌>>◌, ◌||◌, ◌∷◌,
}
use hos_tla_contracts.Common.Keys.{is_ed25519}
use hos_tla_contracts.Host.{Host, PublicKey, parse_account}
use hos_tla_contracts.Registry.AssetGate.{ft_balance_fanout}
use hos_tla_contracts.Registry.Business.{business_count_check_and_bump}
use hos_tla_contracts.Registry.Errors.{
  Reply, business_tla_missing_licensee, insufficient_payment, invalid_sub_account_id,
  main_wallet_equals_sub_account, not_ed25519, only_licensee, sub_account_name_taken,
  tla_not_accepting_rentals, tla_not_found, tla_not_in_registered_state, wrong_activation_endpoint,
}
use hos_tla_contracts.Registry.Fees.{base_rent, calculate_rent}
use hos_tla_contracts.Registry.Mother.{ensure_mother_default}
use hos_tla_contracts.Registry.Names.{sub_account_key, validate_name}
use hos_tla_contracts.Registry.Promises.{
  PendingReRent, Promise, create_sub_account, force_transfer, on_re_rent_balances_checked,
  on_sub_account_created, on_sub_account_created_paid, on_sub_account_re_rented, then_call,
}
use hos_tla_contracts.Registry.State.{
  TlaRegistry, assert_not_paused, assert_payment_authority, refund_excess,
}
use hos_tla_contracts.Registry.Types.{
  SubAccountEntry, TlaEntry, TlaStatus, is_accepting_rentals, is_business, is_registered,
  one_year_ns,
}

-- The fields that `activate_tla` and `activate_open_tla` write.
unfoldable pub activated : ℕ → TlaEntry → TlaEntry
activated now tla = record tla {
  status = TlaStatus.active;
  activated_at = now;
  expires_at = sat_add u64_max now one_year_ns;
}

unfoldable pub activate_tla : Host → Text → TlaRegistry → Reply TlaRegistry
unfolding assert_not_paused is_registered is_business activated refund_excess
activate_tla env tla_id s = do
  assert_not_paused s
  let caller = env.predecessor
  let rent = base_rent (length tla_id % 256) s.fee_config
  let required = sat_add u128_max s.fee_config.tla_allocation_fee rent
  reject (ltb env.attached_deposit required) insufficient_payment
  tla ← ok_or (lookup tla_id s.tlas) tla_not_found
  ensure (is_registered tla.status) tla_not_in_registered_state
  ensure (is_business tla.tla_type) wrong_activation_endpoint
  licensee ← ok_or tla.licensee business_tla_missing_licensee
  ensure (text_eq caller licensee) only_licensee
  let s' = record s {
    tlas = insert tla_id (activated env.block_timestamp tla) s.tlas;
    total_revenue = sat_add u128_max s.total_revenue required;
  }
  ok (refund_excess caller env.attached_deposit required s')

-- `if is_business { the licensee must be given, and be `who` }`
unfoldable pub assert_licensee : Text → TlaEntry → Reply (Unit {0})
unfolding is_business
assert_licensee who tla =
    if is_business tla.tla_type
    then (do
      licensee ← ok_or tla.licensee business_tla_missing_licensee
      ensure (text_eq who licensee) only_licensee)
    else ok tt

-- `if is_business { self.business_count_check_and_bump(&tla_id)?; }`
unfoldable pub bump_if_business : Text → TlaEntry → TlaRegistry → Reply TlaRegistry
unfolding is_business business_count_check_and_bump
bump_if_business tla_id tla s =
    if is_business tla.tla_type then business_count_check_and_bump tla_id s else ok s

-- The entry of a new rental.
unfoldable pub new_rental : Host → Text → Text → Text → SubAccountEntry
new_rental env owner tla_id main_wallet = record {
  owner = owner;
  tla_id = tla_id;
  main_wallet = main_wallet;
  rented_at = env.block_timestamp;
  expires_at = sat_add u64_max env.block_timestamp one_year_ns;
  retraction_at = none;
}

unfoldable pub re_rent_transfer : Text → PendingReRent → Promise
re_rent_transfer hos_extension pending =
    then_call (force_transfer hos_extension pending.sub_account pending.owner_key none ∷ []) (
      on_sub_account_re_rented pending.tla_id pending.name pending.payer pending.rent
        pending.attached)

-- The promise of a re-rental: the asset gate first, unless the allowlist is empty.
unfoldable pub re_rent_promise : TlaRegistry → PendingReRent → Promise
unfolding ft_balance_fanout re_rent_transfer
re_rent_promise s pending = elim (ft_balance_fanout s.ft_allowlist pending.sub_account) [
  | none ↦ re_rent_transfer s.hos_extension pending
  | some chain ↦ then_call chain (on_re_rent_balances_checked pending s.ft_allowlist)
]

unfoldable pub rent_sub_account :
    Host → Text → Text → PublicKey → Text → TlaRegistry → Reply (TlaRegistry × Promise)
unfolding assert_not_paused validate_name is_accepting_rentals assert_licensee ensure_mother_default
    bump_if_business new_rental re_rent_promise
rent_sub_account env tla_id name owner_key main_wallet s = do
  assert_not_paused s
  validate_name name
  let key = sub_account_key tla_id name
  reject (contains_key key s.sub_accounts) sub_account_name_taken
  reject (text_eq main_wallet key) main_wallet_equals_sub_account
  let is_re_rent = contains_key key s.parked_names
  let caller = env.predecessor
  tla ← ok_or (lookup tla_id s.tlas) tla_not_found
  ensure (is_accepting_rentals env tla) tla_not_accepting_rentals
  assert_licensee caller tla
  let rent = calculate_rent tla tla_id name s.fee_config
  let creation_deposit = s.fee_config.account_creation_deposit
  let total = if is_re_rent then rent else sat_add u128_max rent creation_deposit
  let attached = env.attached_deposit
  reject (ltb attached total) insufficient_payment
  bumped ← bump_if_business tla_id tla (ensure_mother_default caller s)
  let s' = record bumped {
    sub_accounts = insert key (new_rental env caller tla_id main_wallet) bumped.sub_accounts;
  }
  if is_re_rent
      then (do
        sub_account ← ok_or (parse_account env key) invalid_sub_account_id
        let pending : PendingReRent = record {
          tla_id = tla_id;
          name = name;
          payer = caller;
          owner_key = owner_key;
          rent = rent;
          attached = attached;
          sub_account = sub_account;
        }
        ok (s', re_rent_promise s' pending))
      else ok (
        s',
        then_call (create_sub_account tla_id creation_deposit name owner_key ∷ [])
            (on_sub_account_created tla_id name caller owner_key rent attached),
      )

unfoldable pub rent_sub_account_paid :
    Host → Text → Text → PublicKey → Text → TlaRegistry → Reply (TlaRegistry × Promise)
unfolding assert_not_paused assert_payment_authority
rent_sub_account_paid env tla_id name owner_key main_wallet s = do
  assert_not_paused s
  payer ← assert_payment_authority env s
  validate_name name
  ensure (is_ed25519 owner_key) not_ed25519
  let key = sub_account_key tla_id name
  reject (contains_key key s.sub_accounts || contains_key key s.parked_names) sub_account_name_taken
  reject (text_eq main_wallet key) main_wallet_equals_sub_account
  tla ← ok_or (lookup tla_id s.tlas) tla_not_found
  ensure (is_accepting_rentals env tla) tla_not_accepting_rentals
  assert_licensee main_wallet tla
  let rent = calculate_rent tla tla_id name s.fee_config
  let creation_deposit = s.fee_config.account_creation_deposit
  let attached = env.attached_deposit
  reject (ltb attached creation_deposit) insufficient_payment
  bumped ← bump_if_business tla_id tla (ensure_mother_default payer s)
  let s' = record bumped {
    sub_accounts = insert key (new_rental env payer tla_id main_wallet) bumped.sub_accounts;
  }
  ok (
    s',
    then_call (create_sub_account tla_id creation_deposit name owner_key ∷ [])
        (on_sub_account_created_paid tla_id name payer owner_key rent attached),
  )
