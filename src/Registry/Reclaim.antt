-- ===== src/Registry/Reclaim.antt =====
-- contracts/tla-registry/src/reclaim.rs: taking back a sub-account that has run out.
use hos_tla_contracts.Base.{
  Bool, List, Text, [], contains_key, ensure, err, false, if◌then◌else◌, insert, lookup, ltb,
  member, none, not, ok, ok_or, reject, remove, some, text_eq, true, ℕ, ◌&&◌, ◌+◌, ◌-◌, ◌>>=◌, ◌>>◌,
  ◌∷◌,
}
use hos_tla_contracts.Common.Keys.{ft_storage_deposit_yocto}
use hos_tla_contracts.Host.{Host, parse_account}
use hos_tla_contracts.Registry.AssetGate.{blocked, clear, ft_balance_fanout, ft_balances_clear}
use hos_tla_contracts.Registry.Business.{business_count_decrement_if_business}
use hos_tla_contracts.Registry.Errors.{
  Reply, insufficient_payment, invalid_sub_account_id, reclaim_in_progress, sub_account_is_mother,
  sub_account_not_found, sub_account_not_reclaimable, sub_account_tla_mismatch, tla_not_found,
  token_not_in_allowlist,
}
use hos_tla_contracts.Registry.Mother.{decrement_mother_use, mother_uses}
use hos_tla_contracts.Registry.Names.{sub_account_key, validate_name}
use hos_tla_contracts.Registry.Promises.{
  Promise, PromiseOrValue, force_transfer, on_balances_checked, on_reclaim_finalized, retry_install,
  sweep_ft, then_call,
}
use hos_tla_contracts.Registry.Sales.{assert_sale_idle}
use hos_tla_contracts.Registry.State.{TlaRegistry, assert_not_paused, refund_excess}
use hos_tla_contracts.Registry.Types.{
  ParkedEntry, SubAccountEntry, effective_sub_lifecycle, is_reclaimable,
}

abbrev pub sweep_attached_required : ℕ
sweep_attached_required = ft_storage_deposit_yocto + 1

-- `self.mothers.get(&owner) == Some(&account)`
unfoldable pub is_mother_of : Text → Text → TlaRegistry → Bool
is_mother_of owner account s = elim (lookup owner s.mothers) [
  | none ↦ false
  | some mother ↦ text_eq mother account
]

-- The sub-account, and the wallet of record that what it holds is swept to.
unfoldable pub resolve_reclaimable : Host → Text → Text → TlaRegistry → Reply (Text × Text)
unfolding mother_uses is_mother_of effective_sub_lifecycle is_reclaimable
resolve_reclaimable env tla_id key s = do
  sub_account ← ok_or (parse_account env key) invalid_sub_account_id
  sub ← ok_or (lookup key s.sub_accounts) sub_account_not_found
  ensure (text_eq sub.tla_id tla_id) sub_account_tla_mismatch
  let total_refs = mother_uses sub_account s
  let owner_self_ref = is_mother_of sub.owner sub_account s
  let external_refs = if owner_self_ref then total_refs - 1 else total_refs
  reject (ltb 0 external_refs) sub_account_is_mother
  tla ← ok_or (lookup tla_id s.tlas) tla_not_found
  ensure
      (is_reclaimable
        (effective_sub_lifecycle env sub tla s.fee_config.retraction_notice_ns s.grace_period_ns))
      sub_account_not_reclaimable
  ok (sub_account, sub.main_wallet)

unfoldable pub reclaim_sweep_ft :
    Host → Text → Text → Text → ℕ → Text → TlaRegistry → Reply (TlaRegistry × Promise)
unfolding assert_not_paused validate_name assert_sale_idle resolve_reclaimable refund_excess
reclaim_sweep_ft env tla_id name ft tx_nonce block_hash s = do
  assert_not_paused s
  validate_name name
  reject (ltb env.attached_deposit sweep_attached_required) insufficient_payment
  let key = sub_account_key tla_id name
  assert_sale_idle key s
  ensure (member ft s.ft_allowlist) token_not_in_allowlist
  resolved ← resolve_reclaimable env tla_id key s
  let s' = refund_excess env.predecessor env.attached_deposit sweep_attached_required s
  let sweep =
      sweep_ft s.hos_extension sweep_attached_required resolved.0 ft resolved.1 tx_nonce block_hash
  ok (s', record { calls = sweep ∷ []; callback = none })

-- A wallet whose signer was never installed is parked by installing the parked key.
unfoldable pub park_wallet : Text → Text → Text → Text → TlaRegistry → Promise
park_wallet sub_account tla_id name destination s =
    let finalize = on_reclaim_finalized tla_id name destination in
    if contains_key (sub_account_key tla_id name) s.signer_pending
    then then_call (retry_install tla_id sub_account s.parked_signer_pubkey ∷ []) finalize
    else then_call (force_transfer s.hos_extension sub_account s.parked_signer_pubkey none ∷ [])
        finalize

unfoldable pub reclaim_finalize : Host → Text → Text → TlaRegistry → Reply (TlaRegistry × Promise)
unfolding assert_not_paused validate_name assert_sale_idle resolve_reclaimable ft_balance_fanout
    park_wallet
reclaim_finalize env tla_id name s = do
  assert_not_paused s
  validate_name name
  let key = sub_account_key tla_id name
  assert_sale_idle key s
  reject (contains_key key s.reclaim_pending) reclaim_in_progress
  resolved ← resolve_reclaimable env tla_id key s
  let s' = record s { reclaim_pending = insert key true s.reclaim_pending }
  elim (ft_balance_fanout s.ft_allowlist resolved.0) [
    | none ↦ ok (s', park_wallet resolved.0 tla_id name resolved.1 s')
    | some chain ↦
        ok (s', then_call chain (on_balances_checked tla_id name resolved.1 s.ft_allowlist))
  ]

-- The reclaim is given up: only its mark is removed.
unfoldable pub clear_reclaim_pending : Text → TlaRegistry → TlaRegistry
clear_reclaim_pending key s = record s { reclaim_pending = remove key s.reclaim_pending }

unfoldable pub balances_checked :
    Host → Text → Text → Text → List Text → TlaRegistry → TlaRegistry × PromiseOrValue
unfolding assert_sale_idle clear_reclaim_pending ft_balances_clear resolve_reclaimable park_wallet
balances_checked env tla_id name destination allowlist s =
    let key = sub_account_key tla_id name in
    elim (assert_sale_idle key s) [
      | err e ↦ (clear_reclaim_pending key s, none)
      | ok u ↦ elim (ft_balances_clear env allowlist) [
        | blocked token reason ↦ (clear_reclaim_pending key s, none)
        | clear ↦ elim (resolve_reclaimable env tla_id key s) [
          | err e ↦ (clear_reclaim_pending key s, none)
          | ok resolved ↦ (s, some (park_wallet resolved.0 tla_id name destination s))
        ]
      ]
    ]

-- `if self.mothers.get(&removed.owner) == Some(&sub_account)`, for a key that is an account id
unfoldable pub drop_self_mother : Host → Text → SubAccountEntry → TlaRegistry → TlaRegistry
unfolding is_mother_of decrement_mother_use
drop_self_mother env key removed s =
    if env.is_account_id key && is_mother_of removed.owner key s
    then decrement_mother_use key (record s { mothers = remove removed.owner s.mothers })
    else s

-- The sale, the pending signer and the count of a rental that is gone.
unfoldable pub forget_rental : Text → TlaRegistry → TlaRegistry
forget_rental key s = record s {
  listings = remove key s.listings;
  accepted_offers = remove key s.accepted_offers;
  signer_pending = remove key s.signer_pending;
  sub_account_count = s.sub_account_count - 1;
}

unfoldable pub park_name : Host → Text → Text → TlaRegistry → TlaRegistry
park_name env key tla_id s =
    let parked : ParkedEntry = record { tla_id = tla_id; parked_at = env.block_timestamp } in
    record s { parked_names = insert key parked s.parked_names }

-- The flag is `is_promise_success()`.
unfoldable pub reclaim_finalized : Host → Bool → Text → Text → TlaRegistry → TlaRegistry
unfolding clear_reclaim_pending
reclaim_finalized env succeeded tla_id name s =
    let key = sub_account_key tla_id name in
    let cleared = clear_reclaim_pending key s in
    if not succeeded then cleared else elim (lookup key s.sub_accounts) [
      | none ↦ cleared
      | some removed ↦
          let vacated = record cleared { sub_accounts = remove key cleared.sub_accounts } in
          let forgotten = forget_rental key (drop_self_mother env key removed vacated) in
          park_name env key tla_id (business_count_decrement_if_business tla_id forgotten)
    ]
