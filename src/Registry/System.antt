-- ===== src/Registry/System.antt =====
-- The registry as a system: every public method and every callback, in any order and with any results.
mod Untouched
mod Frame
pub mod Configuration
pub mod Reachable
mod Credits
mod Settlements
pub mod LedgerRuns
use hos_tla_contracts.Registry.Rental
use hos_tla_contracts.Registry.Renewal
use hos_tla_contracts.Registry.Admin
use hos_tla_contracts.Registry.Listings
use hos_tla_contracts.Registry.Buying
use hos_tla_contracts.Registry.Reclaim
use hos_tla_contracts.Registry.Business
use hos_tla_contracts.Registry.Mother
use hos_tla_contracts.Registry.Minting
use hos_tla_contracts.Base.{Bool, List, Option, Text, err, ok, ℕ, ◌≡◌}
use hos_tla_contracts.Common.Keys.{MintOutcome}
use hos_tla_contracts.Host.{Host, PublicKey}
use hos_tla_contracts.Registry.Errors.{Reply}
use hos_tla_contracts.Registry.Promises.{PendingBuy, PendingReRent, Promise}
use hos_tla_contracts.Registry.State.{TlaRegistry}
use hos_tla_contracts.Registry.Types.{FeeConfig, PremiumCategory, TlaType}

-- The public methods that change state, with their arguments.
pub data Method : Type 0 where
  activate_tla renew_tla suspend_tla unsuspend_tla activate_open_tla : (tla_id : Text) → Method
  rent_sub_account rent_sub_account_paid :
      (tla_id name : Text) (owner_key : PublicKey) (main_wallet : Text) → Method
  set_main_wallet : (tla_id name new_wallet : Text) → Method
  renew_sub_account retry_signer_install : (tla_id name : Text) → Method
  list_sub_account : (tla_id name : Text) (price : ℕ) (owner_key : PublicKey) → Method
  accept_offer : (tla_id name buyer : Text) (price : ℕ) (owner_key : PublicKey) → Method
  unlist_sub_account revoke_offer : (tla_id name : Text) → Method
  buy_sub_account : (tla_id name : Text) (new_owner_key : PublicKey) → Method
  buy_sub_account_paid : (tla_id name buyer : Text) (new_owner_key : PublicKey) → Method
  reclaim_sweep_ft : (tla_id name ft : Text) (tx_nonce : ℕ) (block_hash : Text) → Method
  reclaim_finalize : (tla_id name : Text) → Method
  schedule_retraction cancel_retraction : (tla_id name : Text) → Method
  set_business_sub_cap : (tla_id : Text) (cap : Option ℕ) → Method
  set_mother admin_clear_mother : (account : Text) → Method
  pause unpause claim_refund : Method
  register_tla :
      (tla_id : Text) (tla_type : TlaType) (category : PremiumCategory) (licensee : Option Text)
      → Method
  add_admin remove_admin add_payment_authority remove_payment_authority : (account : Text) → Method
  update_fee_config : FeeConfig → Method
  set_parked_signer_pubkey : PublicKey → Method
  withdraw : (amount : ℕ) (recipient : Text) → Method
  add_ft_allowlist remove_ft_allowlist : (token : Text) → Method
  admin_clear_settling admin_clear_reclaim_pending : (tla_id name : Text) → Method

-- The state that a call leaves, its promise aside.
abbrev pub state_of : Reply (TlaRegistry × Promise) → Reply TlaRegistry
state_of (ok (s, p)) = ok s
state_of (err e) = err e

unfoldable pub run : Host → Method → TlaRegistry → Reply TlaRegistry
run env (Method.activate_tla t) s = Rental.activate_tla env t s
run env (Method.renew_tla t) s = Renewal.renew_tla env t s
run env (Method.suspend_tla t) s = Admin.suspend_tla env t s
run env (Method.unsuspend_tla t) s = Admin.unsuspend_tla env t s
run env (Method.activate_open_tla t) s = Admin.activate_open_tla env t s
run env (Method.rent_sub_account t n k w) s = state_of (Rental.rent_sub_account env t n k w s)
run env (Method.rent_sub_account_paid t n k w) s =
    state_of (Rental.rent_sub_account_paid env t n k w s)
run env (Method.set_main_wallet t n w) s = Listings.set_main_wallet env t n w s
run env (Method.renew_sub_account t n) s = Renewal.renew_sub_account env t n s
run env (Method.retry_signer_install t n) s = state_of (Renewal.retry_signer_install env t n s)
run env (Method.list_sub_account t n price k) s =
    state_of (Listings.list_sub_account env t n price k s)
run env (Method.accept_offer t n b price k) s = state_of (Listings.accept_offer env t n b price k s)
run env (Method.unlist_sub_account t n) s = Listings.unlist_sub_account env t n s
run env (Method.revoke_offer t n) s = Listings.revoke_offer env t n s
run env (Method.buy_sub_account t n k) s = state_of (Buying.buy_sub_account env t n k s)
run env (Method.buy_sub_account_paid t n b k) s =
    state_of (Buying.buy_sub_account_paid env t n b k s)
run env (Method.reclaim_sweep_ft t n ft nonce hash) s =
    state_of (Reclaim.reclaim_sweep_ft env t n ft nonce hash s)
run env (Method.reclaim_finalize t n) s = state_of (Reclaim.reclaim_finalize env t n s)
run env (Method.schedule_retraction t n) s = Business.schedule_retraction env t n s
run env (Method.cancel_retraction t n) s = Business.cancel_retraction env t n s
run env (Method.set_business_sub_cap t cap) s = Business.set_business_sub_cap env t cap s
run env (Method.set_mother a) s = Mother.set_mother env a s
run env (Method.admin_clear_mother a) s = Mother.admin_clear_mother env a s
run env Method.pause s = Admin.pause env s
run env Method.unpause s = Admin.unpause env s
run env Method.claim_refund s = state_of (Admin.claim_refund env s)
run env (Method.register_tla t kind c l) s = Admin.register_tla env t kind c l s
run env (Method.add_admin a) s = Admin.add_admin env a s
run env (Method.remove_admin a) s = Admin.remove_admin env a s
run env (Method.add_payment_authority a) s = Admin.add_payment_authority env a s
run env (Method.remove_payment_authority a) s = Admin.remove_payment_authority env a s
run env (Method.update_fee_config c) s = Admin.update_fee_config env c s
run env (Method.set_parked_signer_pubkey k) s = Admin.set_parked_signer_pubkey env k s
run env (Method.withdraw amount r) s = Admin.withdraw env amount r s
run env (Method.add_ft_allowlist t) s = Admin.add_ft_allowlist env t s
run env (Method.remove_ft_allowlist t) s = Admin.remove_ft_allowlist env t s
run env (Method.admin_clear_settling t n) s = Admin.admin_clear_settling env t n s
run env (Method.admin_clear_reclaim_pending t n) s = Admin.admin_clear_reclaim_pending env t n s

-- A callback with the result that it finds; gates read theirs from the host.
pub data Settlement : Type 0 where
  refund_settled : (succeeded : Bool) (caller : Text) (amount : ℕ) → Settlement
  created created_paid :
      Option MintOutcome
      → (tla_id name payer : Text) (owner_key : PublicKey) (rent attached : ℕ) → Settlement
  re_rented : (succeeded : Bool) (tla_id name payer : Text) (rent attached : ℕ) → Settlement
  re_rent_checked : PendingReRent → (allowlist : List Text) → Settlement
  retry_settled : (succeeded : Bool) (key : Text) → Settlement
  listing_checked :
      Option (Option Text)
      → (tla_id name : Text) (price : ℕ) (owner_key : PublicKey) (seller : Text) → Settlement
  offer_checked :
      Option (Option Text)
      → (tla_id name buyer : Text) (price : ℕ) (owner_key : PublicKey) (seller : Text) → Settlement
  buy_checked : PendingBuy → (allowlist : List Text) → Settlement
  buy_paid_checked : PendingBuy → (allowlist : List Text) (operator : Text) → Settlement
  sold : Option Bool → (tla_id name buyer : Text) (price deposit : ℕ) → Settlement
  sold_paid : Option Bool → (tla_id name buyer operator : Text) → Settlement
  reclaim_checked : (tla_id name destination : Text) (allowlist : List Text) → Settlement
  reclaimed : (succeeded : Bool) (tla_id name : Text) → Settlement

unfoldable pub settle : Host → Settlement → TlaRegistry → Reply TlaRegistry
settle env (refund_settled done c a) s = ok (Admin.claim_refund_settled done c a s)
settle env (created o t n p k r a) s = Minting.sub_account_created o t n p k r a s
settle env (created_paid o t n p k r a) s = Minting.sub_account_created_paid o t n p k r a s
settle env (re_rented done t n p r a) s = ok (Minting.sub_account_re_rented done t n p r a s)
settle env (re_rent_checked p l) s = ok (Minting.re_rent_balances_checked env p l s).0
settle env (retry_settled done k) s = ok (Renewal.retry_signer_settled done k s)
settle env (listing_checked c t n price k o) s =
    ok (Listings.listing_verified env c t n price k o s)
settle env (offer_checked c t n b price k o) s =
    ok (Listings.offer_verified env c t n b price k o s)
settle env (buy_checked p l) s = ok (Buying.buy_balances_checked env p l s).0
settle env (buy_paid_checked p l o) s = ok (Buying.buy_paid_balances_checked env p l o s).0
settle env (sold w t n b price d) s = ok (Buying.sub_account_sold w t n b price d s)
settle env (sold_paid w t n b o) s = ok (Buying.sub_account_sold_paid w t n b o s)
settle env (reclaim_checked t n d l) s = ok (Reclaim.balances_checked env t n d l s).0
settle env (reclaimed done t n) s = ok (Reclaim.reclaim_finalized env done t n s)

-- One call or callback that goes through; one that fails is rolled back and leaves no step.
pub data Step (s s' : TlaRegistry) : Type 0 where
  call : (env : Host) (m : Method) → run env m s ≡ ok s' → Step s s'
  back : (env : Host) (c : Settlement) → settle env c s ≡ ok s' → Step s s'

-- The states that follow a state.
pub data Reach (s : TlaRegistry) : TlaRegistry → Type 0 where
  here : Reach s s
  next : {t u : TlaRegistry} → Reach s t → Step t u → Reach s u
