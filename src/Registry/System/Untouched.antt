-- ===== src/Registry/System/Untouched.antt =====
-- What rentals, purchases and the end of a reclaim leave alone: the settings and the refund ledger.
use hos_tla_contracts.Registry.Rental
use hos_tla_contracts.Registry.Buying
use hos_tla_contracts.Registry.Reclaim
use hos_tla_contracts.Registry.Business
use hos_tla_contracts.Registry.Mother
use hos_tla_contracts.Base.{
  Bool, Option-cases, Result-cases, Text, arith, err, false, inl, inr, lookup, ok, remove, true, ℕ,
  ◌≡◌,
}
use hos_tla_contracts.Host.{Host, PublicKey}
use hos_tla_contracts.Registry.Errors.{Reply}
use hos_tla_contracts.Registry.Names.{sub_account_key}
use hos_tla_contracts.Registry.Promises.{Promise}
use hos_tla_contracts.Registry.RentalChecks.{Rents, rent_sub_account_inv, rent_sub_account_paid_inv}
use hos_tla_contracts.Registry.Sales.{Terms, resolve_and_lock_paid_sale, resolve_and_lock_sale}
use hos_tla_contracts.Registry.State.{TlaRegistry}
use hos_tla_contracts.Registry.System.{state_of}
use hos_tla_contracts.Registry.Types.{SubAccountEntry, TlaEntry}

-- The settings and the refund ledger are the same.
pub record Untouched (s s' : TlaRegistry) : Type 0 where
  pub tlas : s'.tlas ≡ s.tlas
  pub admins : s'.admins ≡ s.admins
  pub fee_config : s'.fee_config ≡ s.fee_config
  pub ft_allowlist : s'.ft_allowlist ≡ s.ft_allowlist
  pub grace_period_ns : s'.grace_period_ns ≡ s.grace_period_ns
  pub pending_refunds : s'.pending_refunds ≡ s.pending_refunds
  pub total_pending_refunds : s'.total_pending_refunds ≡ s.total_pending_refunds

Untouched-trans : {s t u : TlaRegistry} → Untouched s t → Untouched t u → Untouched s u
Untouched-trans a b = ground arith

mother-Untouched :
    (user : Text) (s : TlaRegistry) → Untouched s (Mother.ensure_mother_default user s)
unfolding Mother.ensure_mother_default
mother-Untouched user s = ground arith

bump-Untouched :
    (t : Text) (tla : TlaEntry) (s s' : TlaRegistry)
    → Rental.bump_if_business t tla s ≡ ok s'
    → Untouched s s'
unfolding Rental.bump_if_business
bump-Untouched t tla s s' h = ground arith

pub drop_self_mother-Untouched :
    (env : Host) (key : Text) (removed : SubAccountEntry) (s : TlaRegistry)
    → Untouched s (Reclaim.drop_self_mother env key removed s)
unfolding Reclaim.drop_self_mother
drop_self_mother-Untouched env key removed s = ground arith

pub decrement-Untouched :
    (t : Text) (s : TlaRegistry) → Untouched s (Business.business_count_decrement_if_business t s)
unfolding Business.business_count_decrement_if_business
decrement-Untouched t s = ground arith

Rents-Untouched :
    (env : Host) (owner t key w : Text) (tla : TlaEntry) (s s' : TlaRegistry)
    → Rents env owner t key w tla s s'
    → Untouched s s'
Rents-Untouched env owner t key w tla s s' (bumped, counted, written) =
    let inner : Untouched s bumped =
      Untouched-trans (mother-Untouched owner s) (bump-Untouched t tla _ bumped counted) in
    ground arith

pub rent-Untouched :
    (env : Host) (t n : Text) (k : PublicKey) (w : Text) (s s' : TlaRegistry)
    → (r : Reply (TlaRegistry × Promise)) → Rental.rent_sub_account env t n k w s ≡ r
    → state_of r ≡ ok s'
    → Untouched s s'
rent-Untouched env t n k w s s' (err e) h g = cc
rent-Untouched env t n k w s s' (ok (s'', p)) h g =
    let same : s'' ≡ s' = ground arith in
    let checked = rent_sub_account_inv env t n k w s s'' p h in
    rw (← same)
      (Rents-Untouched env env.predecessor t (sub_account_key t n) w checked.0 s s'' checked.9)

pub rent_paid-Untouched :
    (env : Host) (t n : Text) (k : PublicKey) (w : Text) (s s' : TlaRegistry)
    → (r : Reply (TlaRegistry × Promise)) → Rental.rent_sub_account_paid env t n k w s ≡ r
    → state_of r ≡ ok s'
    → Untouched s s'
rent_paid-Untouched env t n k w s s' (err e) h g = cc
rent_paid-Untouched env t n k w s s' (ok (s'', p)) h g =
    let same : s'' ≡ s' = ground arith in
    let checked = rent_sub_account_paid_inv env t n k w s s'' p h in
    rw (← same)
      (Rents-Untouched env env.predecessor t (sub_account_key t n) w checked.0 s s'' checked.9)

resolve-Untouched :
    (key buyer : Text) (deposit : ℕ) (s : TlaRegistry) (terms : Terms)
    → resolve_and_lock_sale key buyer deposit s ≡ ok terms
    → Untouched s terms.0
unfolding resolve_and_lock_sale
resolve-Untouched key buyer deposit s terms h = ground arith

resolve_paid-Untouched :
    (key buyer : Text) (s : TlaRegistry) (terms : Terms)
    → resolve_and_lock_paid_sale key buyer s ≡ ok terms
    → Untouched s terms.0
unfolding resolve_and_lock_paid_sale
resolve_paid-Untouched key buyer s terms h = ground arith

pub buy-Untouched :
    (env : Host) (t n : Text) (k : PublicKey) (s s' : TlaRegistry)
    → state_of (Buying.buy_sub_account env t n k s) ≡ ok s'
    → Untouched s s'
unfolding Buying.buy_sub_account
buy-Untouched env t n k s s' h =
    elim (Result-cases
      (resolve_and_lock_sale (sub_account_key t n) env.predecessor env.attached_deposit s)) [
        | inl (terms, locked) ↦
            let same =
              resolve-Untouched (sub_account_key t n) env.predecessor env.attached_deposit s terms
                locked in
            ground arith
        | inr (e', refused) ↦ ground arith
      ]

pub buy_paid-Untouched :
    (env : Host) (t n b : Text) (k : PublicKey) (s s' : TlaRegistry)
    → state_of (Buying.buy_sub_account_paid env t n b k s) ≡ ok s'
    → Untouched s s'
unfolding Buying.buy_sub_account_paid
buy_paid-Untouched env t n b k s s' h =
    elim (Result-cases (resolve_and_lock_paid_sale (sub_account_key t n) b s)) [
      | inl (terms, locked) ↦
          let same = resolve_paid-Untouched (sub_account_key t n) b s terms locked in ground arith
      | inr (e', refused) ↦ ground arith
    ]

pub reclaimed-Untouched :
    (env : Host) (done : Bool) (t n : Text) (s : TlaRegistry)
    → Untouched s (Reclaim.reclaim_finalized env done t n s)
unfolding Reclaim.reclaim_finalized Reclaim.forget_rental Reclaim.park_name
reclaimed-Untouched env false t n s = ground arith
reclaimed-Untouched env true t n s =
    elim (Option-cases (lookup (sub_account_key t n) s.sub_accounts)) [
      | inl gone ↦ ground arith
      | inr (removed, found) ↦
          let key = sub_account_key t n in
          let vacated = record s {
            reclaim_pending = remove key s.reclaim_pending;
            sub_accounts = remove key s.sub_accounts;
          } in
          let forgotten =
            Reclaim.forget_rental key (Reclaim.drop_self_mother env key removed vacated) in
          ground (
            arith,
            drop_self_mother-Untouched env key removed vacated,
            decrement-Untouched t forgotten,
          )
    ]
