-- ===== src/Registry/Admin.antt =====
-- contracts/tla-registry/src/admin.rs: the calls of the admins, and the registry's refunds (lib.rs).
use hos_tla_contracts.Base.{
  Bool, Option, Text, [], add_member, contains_key, drop_member, ensure, false, if◌then◌else◌,
  insert, is_some, leb, length, lookup, ltb, member, none, not, ok, ok_or, or_else, reject, remove,
  sat_add, some, text_eq, true, u128_max, ℕ, ◌&&◌, ◌*◌, ◌-◌, ◌==◌, ◌>>=◌, ◌>>◌, ◌∷◌,
}
use hos_tla_contracts.Common.Keys.{is_ed25519}
use hos_tla_contracts.Host.{Host, PublicKey}
use hos_tla_contracts.Registry.Errors.{
  Reply, all_rent_tiers_zero, allowlist_full, business_tla_missing_licensee,
  business_tla_requires_licensee, cannot_remove_last_admin, creation_deposit_zero,
  insufficient_contract_balance, insufficient_revenue, invalid_commission_rate, no_pending_refund,
  not_ed25519, tla_already_registered, tla_not_active, tla_not_found, tla_not_in_registered_state,
  tla_not_suspended, withdrawal_amount_zero, wrong_activation_endpoint,
}
use hos_tla_contracts.Registry.Fees.{default_fee_config}
use hos_tla_contracts.Registry.Names.{sub_account_key}
use hos_tla_contracts.Registry.Promises.{Promise, on_claim_refund_settled, then_call, transfer}
use hos_tla_contracts.Registry.Reclaim.{clear_reclaim_pending}
use hos_tla_contracts.Registry.Rental.{activated}
use hos_tla_contracts.Registry.Sales.{clear_settling}
use hos_tla_contracts.Registry.State.{
  TlaRegistry, add_pending_refund, assert_admin, available_balance,
}
use hos_tla_contracts.Registry.Types.{
  FeeConfig, PremiumCategory, TlaEntry, TlaStatus, TlaType, is_business, is_registered,
  is_suspended,
}

abbrev pub max_allowlist_size : ℕ
max_allowlist_size = 16

abbrev pub min_grace_period_ns : ℕ
min_grace_period_ns = 24 * 60 * 60 * 1000000000

-- lib.rs, `new`: `none` where a `require!` fails.
unfoldable pub new : Host → Text → Text → Text → PublicKey → ℕ → Option TlaRegistry
unfolding is_ed25519 default_fee_config
new env admin hos_extension active_signer parked_signer_pubkey grace_period_ns =
    if is_ed25519 parked_signer_pubkey
      && leb min_grace_period_ns grace_period_ns
      && not (text_eq hos_extension active_signer)
      && not (text_eq hos_extension env.current_account)
      && not (text_eq active_signer env.current_account)
    then some (record {
      tlas = [];
      sub_accounts = [];
      admins = admin ∷ [];
      fee_config = default_fee_config;
      total_revenue = 0;
      sub_account_count = 0;
      is_paused = false;
      version = 1;
      pending_refunds = [];
      total_pending_refunds = 0;
      ft_allowlist = [];
      mothers = [];
      mother_use_count = [];
      business_sub_count = [];
      business_sub_cap_override = [];
      listings = [];
      accepted_offers = [];
      parked_names = [];
      signer_pending = [];
      reclaim_pending = [];
      payment_authorities = [];
      hos_extension = hos_extension;
      active_signer = active_signer;
      parked_signer_pubkey = parked_signer_pubkey;
      grace_period_ns = grace_period_ns;
    })
    else none

unfoldable pub set_paused : Host → Bool → TlaRegistry → Reply TlaRegistry
unfolding assert_admin
set_paused env flag s = assert_admin env s >> ok (record s { is_paused = flag })

unfoldable pub pause : Host → TlaRegistry → Reply TlaRegistry
unfolding set_paused
pause env s = set_paused env true s

unfoldable pub unpause : Host → TlaRegistry → Reply TlaRegistry
unfolding set_paused
unpause env s = set_paused env false s

unfoldable pub claim_refund : Host → TlaRegistry → Reply (TlaRegistry × Promise)
unfolding available_balance
claim_refund env s = do
  let caller = env.predecessor
  let amount = or_else (lookup caller s.pending_refunds) 0
  reject (amount == 0) no_pending_refund
  reject (ltb (available_balance env) amount) insufficient_contract_balance
  let s' = record s {
    pending_refunds = remove caller s.pending_refunds;
    total_pending_refunds = s.total_pending_refunds - amount;
  }
  ok (s', then_call (transfer caller amount ∷ []) (on_claim_refund_settled caller amount))

-- The flag is `is_promise_success()`.
unfoldable pub claim_refund_settled : Bool → Text → ℕ → TlaRegistry → TlaRegistry
unfolding add_pending_refund
claim_refund_settled succeeded caller amount s =
    if succeeded then s else add_pending_refund caller amount s

unfoldable pub register_tla :
    Host → Text → TlaType → PremiumCategory → Option Text → TlaRegistry → Reply TlaRegistry
unfolding assert_admin is_business
register_tla env tla_id tla_type premium_category licensee s = do
  assert_admin env s
  reject (contains_key tla_id s.tlas) tla_already_registered
  reject (is_business tla_type && not (is_some licensee)) business_tla_requires_licensee
  let tla : TlaEntry = record {
    tla_type = tla_type;
    status = TlaStatus.registered;
    licensee = licensee;
    premium_category = premium_category;
    activated_at = 0;
    expires_at = 0;
  }
  ok (record s { tlas = insert tla_id tla s.tlas })

unfoldable pub suspend_tla : Host → Text → TlaRegistry → Reply TlaRegistry
unfolding assert_admin is_registered
suspend_tla env tla_id s = do
  assert_admin env s
  tla ← ok_or (lookup tla_id s.tlas) tla_not_found
  reject (is_registered tla.status) tla_not_active
  ok (record s { tlas = insert tla_id (record tla { status = TlaStatus.suspended }) s.tlas })

unfoldable pub unsuspend_tla : Host → Text → TlaRegistry → Reply TlaRegistry
unfolding assert_admin is_suspended is_business
unsuspend_tla env tla_id s = do
  assert_admin env s
  tla ← ok_or (lookup tla_id s.tlas) tla_not_found
  ensure (is_suspended tla.status) tla_not_suspended
  reject (is_business tla.tla_type && not (is_some tla.licensee)) business_tla_missing_licensee
  ok (record s { tlas = insert tla_id (record tla { status = TlaStatus.active }) s.tlas })

unfoldable pub activate_open_tla : Host → Text → TlaRegistry → Reply TlaRegistry
unfolding assert_admin is_registered is_business activated
activate_open_tla env tla_id s = do
  assert_admin env s
  tla ← ok_or (lookup tla_id s.tlas) tla_not_found
  ensure (is_registered tla.status) tla_not_in_registered_state
  reject (is_business tla.tla_type) wrong_activation_endpoint
  ok (record s { tlas = insert tla_id (activated env.block_timestamp tla) s.tlas })

unfoldable pub add_admin : Host → Text → TlaRegistry → Reply TlaRegistry
unfolding assert_admin
add_admin env account_id s =
    assert_admin env s >> ok (record s { admins = add_member account_id s.admins })

unfoldable pub remove_admin : Host → Text → TlaRegistry → Reply TlaRegistry
unfolding assert_admin
remove_admin env account_id s = do
  assert_admin env s
  reject (leb (length s.admins) 1) cannot_remove_last_admin
  ok (record s { admins = drop_member account_id s.admins })

unfoldable pub add_payment_authority : Host → Text → TlaRegistry → Reply TlaRegistry
unfolding assert_admin
add_payment_authority env account_id s =
    assert_admin env s
    >> ok (record s { payment_authorities = add_member account_id s.payment_authorities })

unfoldable pub remove_payment_authority : Host → Text → TlaRegistry → Reply TlaRegistry
unfolding assert_admin
remove_payment_authority env account_id s =
    assert_admin env s
    >> ok (record s { payment_authorities = drop_member account_id s.payment_authorities })

unfoldable pub update_fee_config : Host → FeeConfig → TlaRegistry → Reply TlaRegistry
unfolding assert_admin
update_fee_config env config s = do
  assert_admin env s
  reject
      (config.rent_tier_5 == 0
        && config.rent_tier_8 == 0
        && config.rent_tier_10 == 0
        && config.rent_tier_12plus == 0)
      all_rent_tiers_zero
  reject (config.account_creation_deposit == 0) creation_deposit_zero
  reject (ltb 10000 config.resale_commission_bps) invalid_commission_rate
  ok (record s { fee_config = config })

unfoldable pub set_parked_signer_pubkey : Host → PublicKey → TlaRegistry → Reply TlaRegistry
unfolding assert_admin is_ed25519
set_parked_signer_pubkey env pubkey s = do
  assert_admin env s
  ensure (is_ed25519 pubkey) not_ed25519
  ok (record s { parked_signer_pubkey = pubkey })

unfoldable pub withdraw : Host → ℕ → Text → TlaRegistry → Reply TlaRegistry
unfolding assert_admin available_balance add_pending_refund
withdraw env amount recipient s = do
  assert_admin env s
  reject (amount == 0) withdrawal_amount_zero
  reject (ltb s.total_revenue amount) insufficient_revenue
  reject (ltb (available_balance env) (sat_add u128_max s.total_pending_refunds amount))
      insufficient_contract_balance
  let s' = record s { total_revenue = s.total_revenue - amount }
  ok (add_pending_refund recipient amount s')

unfoldable pub add_ft_allowlist : Host → Text → TlaRegistry → Reply TlaRegistry
unfolding assert_admin
add_ft_allowlist env token s = do
  assert_admin env s
  if member token s.ft_allowlist then ok s else (do
    reject (leb max_allowlist_size (length s.ft_allowlist)) allowlist_full
    ok (record s { ft_allowlist = add_member token s.ft_allowlist }))

unfoldable pub remove_ft_allowlist : Host → Text → TlaRegistry → Reply TlaRegistry
unfolding assert_admin
remove_ft_allowlist env token s =
    assert_admin env s >> ok (record s { ft_allowlist = drop_member token s.ft_allowlist })

unfoldable pub admin_clear_settling : Host → Text → Text → TlaRegistry → Reply TlaRegistry
unfolding assert_admin clear_settling
admin_clear_settling env tla_id name s =
    assert_admin env s >> ok (clear_settling (sub_account_key tla_id name) s)

unfoldable pub admin_clear_reclaim_pending : Host → Text → Text → TlaRegistry → Reply TlaRegistry
unfolding assert_admin clear_reclaim_pending
admin_clear_reclaim_pending env tla_id name s =
    assert_admin env s >> ok (clear_reclaim_pending (sub_account_key tla_id name) s)
