-- ===== src/Registry/State.antt =====
-- contracts/tla-registry/src/lib.rs: the contract's state, its guards and the refund ledger.
use hos_tla_contracts.Base.{
  Bool, Dict, List, Text, ensure, if◌then◌else◌, insert, lookup, ltb, member, ok, or_else, reject,
  sat_add, sat_mul, u128_max, ℕ, ◌-◌, ◌==◌, ◌>>◌,
}
use hos_tla_contracts.Host.{Host, PublicKey}
use hos_tla_contracts.Registry.Errors.{
  Reply, only_admin, only_payment_authority, paused, requires_one_yocto,
}
use hos_tla_contracts.Registry.Types.{
  AcceptedOffer, FeeConfig, Listing, ParkedEntry, SubAccountEntry, TlaEntry,
}

pub record TlaRegistry : Type 0 where
  pub tlas : Dict TlaEntry
  pub sub_accounts : Dict SubAccountEntry
  pub admins : List Text
  pub fee_config : FeeConfig
  pub total_revenue : ℕ
  pub sub_account_count : ℕ
  pub is_paused : Bool
  pub version : ℕ
  pub pending_refunds : Dict ℕ
  pub total_pending_refunds : ℕ
  pub ft_allowlist : List Text
  pub mothers : Dict Text
  pub mother_use_count : Dict ℕ
  pub business_sub_count : Dict ℕ
  pub business_sub_cap_override : Dict ℕ
  pub listings : Dict Listing
  pub accepted_offers : Dict AcceptedOffer
  pub parked_names : Dict ParkedEntry
  pub signer_pending : Dict PublicKey
  pub reclaim_pending : Dict Bool
  pub payment_authorities : List Text
  pub hos_extension : Text
  pub active_signer : Text
  pub parked_signer_pubkey : PublicKey
  pub grace_period_ns : ℕ

unfoldable pub assert_admin : Host → TlaRegistry → Reply (Unit {0})
assert_admin env s = ensure (member env.predecessor s.admins) only_admin

unfoldable pub assert_payment_authority : Host → TlaRegistry → Reply Text
assert_payment_authority env s =
    ensure (member env.predecessor s.payment_authorities) only_payment_authority
    >> ok env.predecessor

unfoldable pub assert_not_paused : TlaRegistry → Reply (Unit {0})
assert_not_paused s = reject s.is_paused paused

unfoldable pub assert_one_yocto : Host → Reply (Unit {0})
assert_one_yocto env = ensure (env.attached_deposit == 1) requires_one_yocto

unfoldable pub add_pending_refund : Text → ℕ → TlaRegistry → TlaRegistry
add_pending_refund account amount s =
    let existing = or_else (lookup account s.pending_refunds) 0 in
    record s {
      pending_refunds = insert account (sat_add u128_max existing amount) s.pending_refunds;
      total_pending_refunds = sat_add u128_max s.total_pending_refunds amount;
    }

unfoldable pub refund_excess : Text → ℕ → ℕ → TlaRegistry → TlaRegistry
unfolding add_pending_refund
refund_excess payer attached charged s =
    let excess = attached - charged in if ltb 0 excess then add_pending_refund payer excess s else s

unfoldable pub available_balance : Host → ℕ
available_balance env =
    env.account_balance - sat_mul u128_max env.storage_byte_cost env.storage_usage
