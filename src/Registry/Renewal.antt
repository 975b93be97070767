-- ===== src/Registry/Renewal.antt =====
-- contracts/tla-registry/src/rental.rs: renewals, the wallet of record, and the retry of an install.
use hos_tla_contracts.Base.{
  Bool, Text, [], ensure, if◌then◌else◌, insert, is_some, leb, length, lookup, ltb, max, ok, ok_or,
  reject, remove, sat_add, text_eq, u128_max, u64_max, ℕ, ◌%◌, ◌>>=◌, ◌>>◌, ◌∷◌,
}
use hos_tla_contracts.Host.{Host, parse_account}
use hos_tla_contracts.Registry.Errors.{
  Reply, insufficient_payment, invalid_sub_account_id, only_owner, retraction_pending,
  signer_not_pending, sub_account_not_found, sub_account_past_grace_period, tla_not_active,
  tla_not_found, tla_past_grace_period,
}
use hos_tla_contracts.Registry.Fees.{base_rent, calculate_rent}
use hos_tla_contracts.Registry.Names.{sub_account_key}
use hos_tla_contracts.Registry.Promises.{Promise, on_retry_signer_settled, retry_install, then_call}
use hos_tla_contracts.Registry.Rental.{assert_licensee}
use hos_tla_contracts.Registry.State.{TlaRegistry, assert_admin, assert_not_paused, refund_excess}
use hos_tla_contracts.Registry.Types.{
  is_active, is_business, is_reclaimable, one_year_ns, tla_lifecycle,
}

-- A renewal adds a year to the later of now and the old expiry.
unfoldable pub renewed_expiry : ℕ → ℕ → ℕ
renewed_expiry now expires_at = sat_add u64_max (max now expires_at) one_year_ns

unfoldable pub renew_tla : Host → Text → TlaRegistry → Reply TlaRegistry
unfolding assert_not_paused is_active is_business assert_licensee assert_admin renewed_expiry
    refund_excess
renew_tla env tla_id s = do
  assert_not_paused s
  let caller = env.predecessor
  let rent = base_rent (length tla_id % 256) s.fee_config
  let now = env.block_timestamp
  tla ← ok_or (lookup tla_id s.tlas) tla_not_found
  ensure (is_active tla.status) tla_not_active
  reject (leb (sat_add u64_max tla.expires_at s.grace_period_ns) now) tla_past_grace_period
  assert_licensee caller tla
  if is_business tla.tla_type then ok tt else assert_admin env s
  reject (ltb env.attached_deposit rent) insufficient_payment
  let tla' = record tla { expires_at = renewed_expiry now tla.expires_at }
  let s' = record s {
    tlas = insert tla_id tla' s.tlas;
    total_revenue = sat_add u128_max s.total_revenue rent;
  }
  ok (refund_excess caller env.attached_deposit rent s')

unfoldable pub renew_sub_account : Host → Text → Text → TlaRegistry → Reply TlaRegistry
unfolding assert_not_paused tla_lifecycle is_reclaimable renewed_expiry refund_excess
renew_sub_account env tla_id name s = do
  assert_not_paused s
  let key = sub_account_key tla_id name
  let caller = env.predecessor
  let now = env.block_timestamp
  sub ← ok_or (lookup key s.sub_accounts) sub_account_not_found
  reject (leb (sat_add u64_max sub.expires_at s.grace_period_ns) now) sub_account_past_grace_period
  ensure (text_eq caller sub.owner) only_owner
  reject (is_some sub.retraction_at) retraction_pending
  tla ← ok_or (lookup tla_id s.tlas) tla_not_found
  reject (is_reclaimable (tla_lifecycle env tla s.grace_period_ns)) tla_past_grace_period
  let rent = calculate_rent tla tla_id name s.fee_config
  reject (ltb env.attached_deposit rent) insufficient_payment
  let sub' = record sub { expires_at = renewed_expiry now sub.expires_at }
  let s' = record s {
    sub_accounts = insert key sub' s.sub_accounts;
    total_revenue = sat_add u128_max s.total_revenue rent;
  }
  ok (refund_excess caller env.attached_deposit rent s')

unfoldable pub retry_signer_install :
    Host → Text → Text → TlaRegistry → Reply (TlaRegistry × Promise)
unfolding assert_not_paused
retry_signer_install env tla_id name s = do
  assert_not_paused s
  let key = sub_account_key tla_id name
  owner_key ← ok_or (lookup key s.signer_pending) signer_not_pending
  sub ← ok_or (lookup key s.sub_accounts) sub_account_not_found
  ensure (text_eq env.predecessor sub.owner) only_owner
  sub_account ← ok_or (parse_account env key) invalid_sub_account_id
  ok (s, then_call (retry_install tla_id sub_account owner_key ∷ []) (on_retry_signer_settled key))

-- The flag is `is_promise_success()`.
unfoldable pub retry_signer_settled : Bool → Text → TlaRegistry → TlaRegistry
retry_signer_settled succeeded key s =
    if succeeded then record s { signer_pending = remove key s.signer_pending } else s
