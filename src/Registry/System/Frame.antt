-- ===== src/Registry/System/Frame.antt =====
-- What most calls and all callbacks leave alone: the TLAs, the admins, the fees, the allowlist and the
-- grace period.
use hos_tla_contracts.Registry.Rental
use hos_tla_contracts.Registry.Renewal
use hos_tla_contracts.Registry.Admin
use hos_tla_contracts.Registry.Listings
use hos_tla_contracts.Registry.Buying
use hos_tla_contracts.Registry.Reclaim
use hos_tla_contracts.Registry.Business
use hos_tla_contracts.Registry.Mother
use hos_tla_contracts.Registry.Minting
use hos_tla_contracts.Base.{Option, Text, arith, none, ok, refl, some, ◌≡◌}
use hos_tla_contracts.Common.Keys.{MintOutcome}
use hos_tla_contracts.Host.{Host}
use hos_tla_contracts.Registry.State.{TlaRegistry}
use hos_tla_contracts.Registry.System.{
  Method, Settlement, buy_checked, buy_paid_checked, created, created_paid, listing_checked,
  offer_checked, re_rent_checked, re_rented, reclaim_checked, reclaimed, refund_settled,
  retry_settled, run, settle, sold, sold_paid,
}
use hos_tla_contracts.Registry.System.Untouched.{
  Untouched, buy-Untouched, buy_paid-Untouched, reclaimed-Untouched, rent-Untouched,
  rent_paid-Untouched,
}
use hos_tla_contracts.Registry.Types.{FeeConfig, PremiumCategory, TlaType}

pub record SameSettings (s s' : TlaRegistry) : Type 0 where
  pub tlas : s'.tlas ≡ s.tlas
  pub admins : s'.admins ≡ s.admins
  pub fee_config : s'.fee_config ≡ s.fee_config
  pub ft_allowlist : s'.ft_allowlist ≡ s.ft_allowlist
  pub grace_period_ns : s'.grace_period_ns ≡ s.grace_period_ns

settings_of : {s s' : TlaRegistry} → Untouched s s' → SameSettings s s'
settings_of u = record {
  tlas = u.tlas;
  admins = u.admins;
  fee_config = u.fee_config;
  ft_allowlist = u.ft_allowlist;
  grace_period_ns = u.grace_period_ns;
}

-- The methods that write one of these.
pub data Touches : Method → Type 0 where
  writes_activate_tla : (t : Text) → Touches (Method.activate_tla t)
  writes_renew_tla : (t : Text) → Touches (Method.renew_tla t)
  writes_suspend_tla : (t : Text) → Touches (Method.suspend_tla t)
  writes_unsuspend_tla : (t : Text) → Touches (Method.unsuspend_tla t)
  writes_activate_open_tla : (t : Text) → Touches (Method.activate_open_tla t)
  writes_register_tla :
      (t : Text) (kind : TlaType) (c : PremiumCategory) (l : Option Text)
      → Touches (Method.register_tla t kind c l)
  writes_add_admin : (a : Text) → Touches (Method.add_admin a)
  writes_remove_admin : (a : Text) → Touches (Method.remove_admin a)
  writes_update_fee_config : (c : FeeConfig) → Touches (Method.update_fee_config c)
  writes_add_ft_allowlist : (t : Text) → Touches (Method.add_ft_allowlist t)
  writes_remove_ft_allowlist : (t : Text) → Touches (Method.remove_ft_allowlist t)

pub run-SameSettings :
    (env : Host) (m : Method) (s s' : TlaRegistry)
    → ¬ Touches m
    → run env m s ≡ ok s'
    → SameSettings s s'
unfolding run Listings.set_main_wallet Renewal.renew_sub_account Renewal.retry_signer_install
    Listings.list_sub_account Listings.accept_offer Listings.unlist_sub_account
    Listings.revoke_offer Reclaim.reclaim_sweep_ft Reclaim.reclaim_finalize
    Business.schedule_retraction Business.cancel_retraction Business.set_business_sub_cap
    Mother.set_mother Mother.admin_clear_mother Admin.pause Admin.unpause Admin.claim_refund
    Admin.add_payment_authority Admin.remove_payment_authority Admin.set_parked_signer_pubkey
    Admin.withdraw Admin.admin_clear_settling Admin.admin_clear_reclaim_pending
run-SameSettings env (Method.activate_tla t) s s' o h = absurd (o (writes_activate_tla t))
run-SameSettings env (Method.renew_tla t) s s' o h = absurd (o (writes_renew_tla t))
run-SameSettings env (Method.suspend_tla t) s s' o h = absurd (o (writes_suspend_tla t))
run-SameSettings env (Method.unsuspend_tla t) s s' o h = absurd (o (writes_unsuspend_tla t))
run-SameSettings env (Method.activate_open_tla t) s s' o h = absurd (o (writes_activate_open_tla t))
run-SameSettings env (Method.rent_sub_account t n k w) s s' o h =
    settings_of (rent-Untouched env t n k w s s' (Rental.rent_sub_account env t n k w s) refl h)
run-SameSettings env (Method.rent_sub_account_paid t n k w) s s' o h =
    settings_of
      (rent_paid-Untouched env t n k w s s' (Rental.rent_sub_account_paid env t n k w s) refl h)
run-SameSettings env (Method.set_main_wallet t n w) s s' o h = ground arith
run-SameSettings env (Method.renew_sub_account t n) s s' o h = ground arith
run-SameSettings env (Method.retry_signer_install t n) s s' o h = ground arith
run-SameSettings env (Method.list_sub_account t n price k) s s' o h = ground arith
run-SameSettings env (Method.accept_offer t n b price k) s s' o h = ground arith
run-SameSettings env (Method.unlist_sub_account t n) s s' o h = ground arith
run-SameSettings env (Method.revoke_offer t n) s s' o h = ground arith
run-SameSettings env (Method.buy_sub_account t n k) s s' o h =
    settings_of (buy-Untouched env t n k s s' h)
run-SameSettings env (Method.buy_sub_account_paid t n b k) s s' o h =
    settings_of (buy_paid-Untouched env t n b k s s' h)
run-SameSettings env (Method.reclaim_sweep_ft t n ft nonce hash) s s' o h = ground arith
run-SameSettings env (Method.reclaim_finalize t n) s s' o h = ground arith
run-SameSettings env (Method.schedule_retraction t n) s s' o h = ground arith
run-SameSettings env (Method.cancel_retraction t n) s s' o h = ground arith
run-SameSettings env (Method.set_business_sub_cap t limit) s s' o h = ground arith
run-SameSettings env (Method.set_mother a) s s' o h = ground arith
run-SameSettings env (Method.admin_clear_mother a) s s' o h = ground arith
run-SameSettings env Method.pause s s' o h = ground arith
run-SameSettings env Method.unpause s s' o h = ground arith
run-SameSettings env Method.claim_refund s s' o h = ground arith
run-SameSettings env (Method.register_tla t kind c l) s s' o h =
    absurd (o (writes_register_tla t kind c l))
run-SameSettings env (Method.add_admin a) s s' o h = absurd (o (writes_add_admin a))
run-SameSettings env (Method.remove_admin a) s s' o h = absurd (o (writes_remove_admin a))
run-SameSettings env (Method.add_payment_authority a) s s' o h = ground arith
run-SameSettings env (Method.remove_payment_authority a) s s' o h = ground arith
run-SameSettings env (Method.update_fee_config c) s s' o h = absurd (o (writes_update_fee_config c))
run-SameSettings env (Method.set_parked_signer_pubkey k) s s' o h = ground arith
run-SameSettings env (Method.withdraw amount r) s s' o h = ground arith
run-SameSettings env (Method.add_ft_allowlist t) s s' o h = absurd (o (writes_add_ft_allowlist t))
run-SameSettings env (Method.remove_ft_allowlist t) s s' o h =
    absurd (o (writes_remove_ft_allowlist t))
run-SameSettings env (Method.admin_clear_settling t n) s s' o h = ground arith
run-SameSettings env (Method.admin_clear_reclaim_pending t n) s s' o h = ground arith

pub settle-SameSettings :
    (env : Host) (c : Settlement) (s s' : TlaRegistry) → settle env c s ≡ ok s' → SameSettings s s'
unfolding settle Admin.claim_refund_settled Minting.sub_account_created
    Minting.sub_account_created_paid Minting.sub_account_re_rented Minting.re_rent_balances_checked
    Renewal.retry_signer_settled Listings.listing_verified Listings.offer_verified
    Buying.buy_balances_checked Buying.buy_paid_balances_checked Buying.sub_account_sold
    Buying.sub_account_sold_paid Reclaim.balances_checked
settle-SameSettings env (refund_settled done c a) s s' h = ground arith
settle-SameSettings env (created none t n p k r a) s s' h = ground arith
settle-SameSettings env (created (some MintOutcome.active) t n p k r a) s s' h = ground arith
settle-SameSettings env (created (some MintOutcome.signer_pending) t n p k r a) s s' h =
    ground arith
settle-SameSettings env (created (some MintOutcome.creation_failed) t n p k r a) s s' h =
    ground arith
settle-SameSettings env (created_paid none t n p k r a) s s' h = ground arith
settle-SameSettings env (created_paid (some MintOutcome.active) t n p k r a) s s' h = ground arith
settle-SameSettings env (created_paid (some MintOutcome.signer_pending) t n p k r a) s s' h =
    ground arith
settle-SameSettings env (created_paid (some MintOutcome.creation_failed) t n p k r a) s s' h =
    ground arith
settle-SameSettings env (re_rented done t n p r a) s s' h = ground arith
settle-SameSettings env (re_rent_checked p l) s s' h = ground arith
settle-SameSettings env (retry_settled done k) s s' h = ground arith
settle-SameSettings env (listing_checked c t n price k o) s s' h = ground arith
settle-SameSettings env (offer_checked c t n b price k o) s s' h = ground arith
settle-SameSettings env (buy_checked p l) s s' h = ground arith
settle-SameSettings env (buy_paid_checked p l o) s s' h = ground arith
settle-SameSettings env (sold w t n b price d) s s' h = ground arith
settle-SameSettings env (sold_paid w t n b o) s s' h = ground arith
settle-SameSettings env (reclaim_checked t n d l) s s' h = ground arith
settle-SameSettings env (reclaimed done t n) s s' h =
    ground (arith, reclaimed-Untouched env done t n s)
