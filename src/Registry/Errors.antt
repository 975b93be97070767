-- ===== src/Registry/Errors.antt =====
-- contracts/tla-registry/src/error.rs
use hos_tla_contracts.Base.{Result}

pub data NameInvalidReason : Type 0 where
  length_out_of_bounds disallowed_character edge_separator : NameInvalidReason

pub data ContractError : Type 0 where
  only_admin only_payment_authority only_licensee only_owner : ContractError
  paused no_pending_refund : ContractError
  tla_not_found tla_already_registered tla_not_in_registered_state : ContractError
  tla_not_active tla_not_suspended tla_not_accepting_rentals tla_past_grace_period : ContractError
  business_tla_requires_licensee business_tla_missing_licensee : ContractError
  wrong_activation_endpoint : ContractError
  sub_account_not_found sub_account_name_taken sub_account_past_grace_period : ContractError
  sub_account_not_reclaimable signer_not_pending main_wallet_equals_sub_account : ContractError
  invalid_sub_account_id : ContractError
  invalid_name : NameInvalidReason → ContractError
  insufficient_payment insufficient_revenue withdrawal_amount_zero : ContractError
  token_not_in_allowlist allowlist_full all_rent_tiers_zero creation_deposit_zero : ContractError
  cannot_remove_last_admin sub_account_is_mother mother_is_reclaimable : ContractError
  mother_not_set max_business_subs_reached no_retraction_scheduled : ContractError
  retraction_already_scheduled retraction_already_elapsed retraction_pending : ContractError
  not_business_tla requires_one_yocto insufficient_contract_balance not_listed : ContractError
  sale_in_progress reclaim_in_progress sub_account_tla_mismatch : ContractError
  sub_account_not_sellable business_sub_not_resellable price_not_met invalid_price : ContractError
  no_accepted_offer invalid_commission_rate not_ed25519 : ContractError

-- What a call of the registry returns.
abbrev pub Reply : Type 0 → Type 0
Reply A = Result ContractError A
