-- ===== src/Registry/Minting.antt =====
-- contracts/tla-registry/src/callbacks.rs, and the re-rent gate of rental.rs: what becomes of a
-- rental when the mint, or the transfer of a parked account, has ended.
use hos_tla_contracts.Base.{
  Bool, List, Option, Text, contains_key, ensure, if◌then◌else◌, insert, none, ok, remove, sat_add,
  some, u128_max, u64_max, ℕ, ◌>>=◌, ◌>>◌,
}
use hos_tla_contracts.Common.Keys.{MintOutcome}
use hos_tla_contracts.Host.{Host, PublicKey}
use hos_tla_contracts.Registry.AssetGate.{blocked, clear, ft_balances_clear}
use hos_tla_contracts.Registry.Business.{business_count_decrement_if_business}
use hos_tla_contracts.Registry.Errors.{Reply, sub_account_not_found}
use hos_tla_contracts.Registry.Names.{sub_account_key}
use hos_tla_contracts.Registry.Promises.{PendingReRent, PromiseOrValue}
use hos_tla_contracts.Registry.Rental.{re_rent_transfer}
use hos_tla_contracts.Registry.State.{TlaRegistry, add_pending_refund, refund_excess}

-- `charged` is what the payer owes; `none` is the panic of a rental that is no longer there.
unfoldable pub record_rental : Text → Text → ℕ → ℕ → TlaRegistry → Reply TlaRegistry
unfolding refund_excess
record_rental key payer rent attached s =
    let charged = sat_add u128_max rent s.fee_config.account_creation_deposit in
    let counted = record s {
      sub_account_count = sat_add u64_max s.sub_account_count 1;
      total_revenue = sat_add u128_max s.total_revenue rent;
    } in
    let s' = refund_excess payer attached charged counted in
    ensure (contains_key key s'.sub_accounts) sub_account_not_found >> ok s'

unfoldable pub record_paid_rental : Text → Text → ℕ → TlaRegistry → Reply TlaRegistry
unfolding refund_excess
record_paid_rental key payer attached s =
    let counted = record s { sub_account_count = sat_add u64_max s.sub_account_count 1 } in
    let s' = refund_excess payer attached s.fee_config.account_creation_deposit counted in
    ensure (contains_key key s'.sub_accounts) sub_account_not_found >> ok s'

unfoldable pub settle_failed_mint : Text → Text → Text → ℕ → TlaRegistry → TlaRegistry
unfolding business_count_decrement_if_business add_pending_refund
settle_failed_mint key tla_id payer attached s =
    let removed = record s { sub_accounts = remove key s.sub_accounts } in
    add_pending_refund payer attached (business_count_decrement_if_business tla_id removed)

-- The outcome is `none` for a `PromiseError`.
unfoldable pub sub_account_created :
    Option MintOutcome → Text → Text → Text → PublicKey → ℕ → ℕ → TlaRegistry → Reply TlaRegistry
unfolding record_rental settle_failed_mint
sub_account_created (some MintOutcome.active) tla_id name payer owner_key rent attached s =
    record_rental (sub_account_key tla_id name) payer rent attached s
sub_account_created (some MintOutcome.signer_pending) tla_id name payer owner_key rent attached s =
    do
      let key = sub_account_key tla_id name
      s' ← record_rental key payer rent attached s
      ok (record s' { signer_pending = insert key owner_key s'.signer_pending })
sub_account_created (some MintOutcome.creation_failed) tla_id name payer owner_key rent attached s =
    ok (settle_failed_mint (sub_account_key tla_id name) tla_id payer attached s)
sub_account_created none tla_id name payer owner_key rent attached s =
    ok (settle_failed_mint (sub_account_key tla_id name) tla_id payer attached s)

unfoldable pub sub_account_created_paid :
    Option MintOutcome → Text → Text → Text → PublicKey → ℕ → ℕ → TlaRegistry → Reply TlaRegistry
unfolding record_paid_rental settle_failed_mint
sub_account_created_paid (some MintOutcome.active) tla_id name payer owner_key rent attached s =
    record_paid_rental (sub_account_key tla_id name) payer attached s
sub_account_created_paid (some MintOutcome.signer_pending) tla_id name payer owner_key rent attached
      s =
    do
      let key = sub_account_key tla_id name
      s' ← record_paid_rental key payer attached s
      ok (record s' { signer_pending = insert key owner_key s'.signer_pending })
sub_account_created_paid (some MintOutcome.creation_failed) tla_id name payer owner_key rent
      attached s =
    ok (settle_failed_mint (sub_account_key tla_id name) tla_id payer attached s)
sub_account_created_paid none tla_id name payer owner_key rent attached s =
    ok (settle_failed_mint (sub_account_key tla_id name) tla_id payer attached s)

-- The flag is `is_promise_success()`.
unfoldable pub sub_account_re_rented : Bool → Text → Text → Text → ℕ → ℕ → TlaRegistry → TlaRegistry
unfolding refund_excess settle_failed_mint
sub_account_re_rented succeeded tla_id name payer rent attached s =
    let key = sub_account_key tla_id name in
    if succeeded
    then refund_excess payer attached rent (record s {
      parked_names = remove key s.parked_names;
      sub_account_count = sat_add u64_max s.sub_account_count 1;
      total_revenue = sat_add u128_max s.total_revenue rent;
    })
    else settle_failed_mint key tla_id payer attached s

unfoldable pub re_rent_balances_checked :
    Host → PendingReRent → List Text → TlaRegistry → TlaRegistry × PromiseOrValue
unfolding ft_balances_clear settle_failed_mint re_rent_transfer
re_rent_balances_checked env pending allowlist s =
    let key = sub_account_key pending.tla_id pending.name in
    elim (ft_balances_clear env allowlist) [
      | blocked token reason ↦
          (settle_failed_mint key pending.tla_id pending.payer pending.attached s, none)
      | clear ↦ (s, some (re_rent_transfer s.hos_extension pending))
    ]
