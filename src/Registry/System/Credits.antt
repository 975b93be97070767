-- ===== src/Registry/System/Credits.antt =====
-- What the calls and callbacks of the registry do to the refund ledger: they credit accounts. Only a
-- claim pays out.
use hos_tla_contracts.Registry.Rental
use hos_tla_contracts.Registry.Renewal
use hos_tla_contracts.Registry.Admin
use hos_tla_contracts.Registry.Reclaim
use hos_tla_contracts.Registry.Listings
use hos_tla_contracts.Registry.Business
use hos_tla_contracts.Registry.Mother
use hos_tla_contracts.Base.{
  Bool-cases, Option-cases, Text, arith, inl, inr, insert, length, lookup, ltb, ok, or_else, refl,
  sat_add, u128_max, ℕ, ◌%◌, ◌+◌, ◌-◌, ◌<◌, ◌∙◌, ◌≡◌, ◌≤◌,
}
use hos_tla_contracts.Host.{Host}
use hos_tla_contracts.Registry.Fees.{base_rent, calculate_rent}
use hos_tla_contracts.Registry.Money.Ledger.{IsLedger, add_pending_refund-IsLedger}
use hos_tla_contracts.Registry.Reclaim.{sweep_attached_required}
use hos_tla_contracts.Registry.State.{TlaRegistry, add_pending_refund}
use hos_tla_contracts.Registry.System.{Method, run, state_of}
use hos_tla_contracts.Registry.System.Untouched.{
  Untouched, buy-Untouched, buy_paid-Untouched, rent-Untouched, rent_paid-Untouched,
}

pub record SameBooks (s s' : TlaRegistry) : Type 0 where
  pub pending : s'.pending_refunds ≡ s.pending_refunds
  pub total : s'.total_pending_refunds ≡ s.total_pending_refunds

pub record OneCredit (account : Text) (amount : ℕ) (s s' : TlaRegistry) : Type 0 where
  pub pending :
      s'.pending_refunds
      ≡ insert account
          (sat_add u128_max (or_else (lookup account s.pending_refunds) 0) amount)
          s.pending_refunds
  pub total : s'.total_pending_refunds ≡ sat_add u128_max s.total_pending_refunds amount

pub data Credits (s : TlaRegistry) : TlaRegistry → Type 0 where
  kept_books : {t : TlaRegistry} → SameBooks s t → Credits s t
  then_credit :
      {t u : TlaRegistry}
      → Credits s t
      → (account : Text) (amount : ℕ) → OneCredit account amount t u
      → Credits s u

pub OneCredit-IsLedger :
    (account : Text) (amount : ℕ) (s s' : TlaRegistry)
    → OneCredit account amount s s'
    → s'.total_pending_refunds < u128_max
    → IsLedger s
    → IsLedger s' × (s.total_pending_refunds < u128_max)
unfolding sat_add insert add_pending_refund
OneCredit-IsLedger account amount s s' c below h =
    let fits : s.total_pending_refunds + amount ≤ u128_max = ground arith in
    let added = add_pending_refund-IsLedger account amount s fits h in
    (
      record {
        distinct = rw (c.pending) added.distinct;
        total = c.total ∙ rw c.pending added.total;
      },
      ground arith,
    )

pub one_credit :
    (account : Text) (amount : ℕ) (s s' : TlaRegistry)
    → OneCredit account amount s s'
    → Credits s s'
one_credit account amount s s' c =
    then_credit (kept_books (record { pending = refl; total = refl })) account amount c

activate-Credits :
    (env : Host) (t : Text) (s s' : TlaRegistry)
    → Rental.activate_tla env t s ≡ ok s'
    → Credits s s'
unfolding Rental.activate_tla
activate-Credits env t s s' h =
    let charge =
      sat_add u128_max s.fee_config.tla_allocation_fee (base_rent (length t % 256) s.fee_config) in
    elim (Bool-cases (ltb 0 (env.attached_deposit - charge))) [
      | inl more ↦ one_credit env.predecessor (env.attached_deposit - charge) s s' (ground arith)
      | inr exact ↦ kept_books (ground arith)
    ]

renew_tla-Credits :
    (env : Host) (t : Text) (s s' : TlaRegistry) → Renewal.renew_tla env t s ≡ ok s' → Credits s s'
unfolding Renewal.renew_tla
renew_tla-Credits env t s s' h =
    let rent = base_rent (length t % 256) s.fee_config in
    elim (Bool-cases (ltb 0 (env.attached_deposit - rent))) [
      | inl more ↦ one_credit env.predecessor (env.attached_deposit - rent) s s' (ground arith)
      | inr exact ↦ kept_books (ground arith)
    ]

renew_sub-Credits :
    (env : Host) (t n : Text) (s s' : TlaRegistry)
    → Renewal.renew_sub_account env t n s ≡ ok s'
    → Credits s s'
unfolding Renewal.renew_sub_account
renew_sub-Credits env t n s s' h = elim (Option-cases (lookup t s.tlas)) [
  | inl unknown ↦ kept_books (ground arith)
  | inr (tla, found) ↦
      let rent = calculate_rent tla t n s.fee_config in
      elim (Bool-cases (ltb 0 (env.attached_deposit - rent))) [
        | inl more ↦ one_credit env.predecessor (env.attached_deposit - rent) s s' (ground arith)
        | inr exact ↦ kept_books (ground arith)
      ]
]

sweep-Credits :
    (env : Host) (t n ft : Text) (nonce : ℕ) (hash : Text) (s s' : TlaRegistry)
    → state_of (Reclaim.reclaim_sweep_ft env t n ft nonce hash s) ≡ ok s'
    → Credits s s'
unfolding Reclaim.reclaim_sweep_ft
sweep-Credits env t n ft nonce hash s s' h =
    elim (Bool-cases (ltb 0 (env.attached_deposit - sweep_attached_required))) [
      | inl more ↦
          one_credit env.predecessor (env.attached_deposit - sweep_attached_required) s s'
            (ground arith)
      | inr exact ↦ kept_books (ground arith)
    ]

pub books_of : {s s' : TlaRegistry} → Untouched s s' → Credits s s'
books_of u = kept_books (record { pending = u.pending_refunds; total = u.total_pending_refunds })

pub data Claims : Method → Type 0 where
  claims_refund : Claims Method.claim_refund

pub run-Credits :
    (env : Host) (m : Method) (s s' : TlaRegistry) → ¬ Claims m → run env m s ≡ ok s' → Credits s s'
unfolding run Rental.activate_tla Admin.suspend_tla Admin.unsuspend_tla Admin.activate_open_tla
    Listings.set_main_wallet Renewal.retry_signer_install Listings.list_sub_account
    Listings.accept_offer Listings.unlist_sub_account Listings.revoke_offer Reclaim.reclaim_finalize
    Business.schedule_retraction Business.cancel_retraction Business.set_business_sub_cap
    Mother.set_mother Mother.admin_clear_mother Admin.pause Admin.unpause
    Admin.add_payment_authority Admin.remove_payment_authority Admin.set_parked_signer_pubkey
    Admin.withdraw Admin.admin_clear_settling Admin.admin_clear_reclaim_pending Admin.register_tla
    Admin.add_admin Admin.remove_admin Admin.update_fee_config Admin.add_ft_allowlist
    Admin.remove_ft_allowlist
run-Credits env (Method.activate_tla t) s s' o h = activate-Credits env t s s' h
run-Credits env (Method.renew_tla t) s s' o h = renew_tla-Credits env t s s' h
run-Credits env (Method.suspend_tla t) s s' o h = kept_books (ground arith)
run-Credits env (Method.unsuspend_tla t) s s' o h = kept_books (ground arith)
run-Credits env (Method.activate_open_tla t) s s' o h = kept_books (ground arith)
run-Credits env (Method.rent_sub_account t n k w) s s' o h =
    books_of (rent-Untouched env t n k w s s' (Rental.rent_sub_account env t n k w s) refl h)
run-Credits env (Method.rent_sub_account_paid t n k w) s s' o h =
    books_of
      (rent_paid-Untouched env t n k w s s' (Rental.rent_sub_account_paid env t n k w s) refl h)
run-Credits env (Method.set_main_wallet t n w) s s' o h = kept_books (ground arith)
run-Credits env (Method.renew_sub_account t n) s s' o h = renew_sub-Credits env t n s s' h
run-Credits env (Method.retry_signer_install t n) s s' o h = kept_books (ground arith)
run-Credits env (Method.list_sub_account t n price k) s s' o h = kept_books (ground arith)
run-Credits env (Method.accept_offer t n b price k) s s' o h = kept_books (ground arith)
run-Credits env (Method.unlist_sub_account t n) s s' o h = kept_books (ground arith)
run-Credits env (Method.revoke_offer t n) s s' o h = kept_books (ground arith)
run-Credits env (Method.buy_sub_account t n k) s s' o h = books_of (buy-Untouched env t n k s s' h)
run-Credits env (Method.buy_sub_account_paid t n b k) s s' o h =
    books_of (buy_paid-Untouched env t n b k s s' h)
run-Credits env (Method.reclaim_sweep_ft t n ft nonce hash) s s' o h =
    sweep-Credits env t n ft nonce hash s s' h
run-Credits env (Method.reclaim_finalize t n) s s' o h = kept_books (ground arith)
run-Credits env (Method.schedule_retraction t n) s s' o h = kept_books (ground arith)
run-Credits env (Method.cancel_retraction t n) s s' o h = kept_books (ground arith)
run-Credits env (Method.set_business_sub_cap t limit) s s' o h = kept_books (ground arith)
run-Credits env (Method.set_mother a) s s' o h = kept_books (ground arith)
run-Credits env (Method.admin_clear_mother a) s s' o h = kept_books (ground arith)
run-Credits env Method.pause s s' o h = kept_books (ground arith)
run-Credits env Method.unpause s s' o h = kept_books (ground arith)
run-Credits env Method.claim_refund s s' o h = absurd (o claims_refund)
run-Credits env (Method.register_tla t kind c l) s s' o h = kept_books (ground arith)
run-Credits env (Method.add_admin a) s s' o h = kept_books (ground arith)
run-Credits env (Method.remove_admin a) s s' o h = kept_books (ground arith)
run-Credits env (Method.add_payment_authority a) s s' o h = kept_books (ground arith)
run-Credits env (Method.remove_payment_authority a) s s' o h = kept_books (ground arith)
run-Credits env (Method.update_fee_config c) s s' o h = kept_books (ground arith)
run-Credits env (Method.set_parked_signer_pubkey k) s s' o h = kept_books (ground arith)
run-Credits env (Method.withdraw amount r) s s' o h = one_credit r amount s s' (ground arith)
run-Credits env (Method.add_ft_allowlist t) s s' o h = kept_books (ground arith)
run-Credits env (Method.remove_ft_allowlist t) s s' o h = kept_books (ground arith)
run-Credits env (Method.admin_clear_settling t n) s s' o h = kept_books (ground arith)
run-Credits env (Method.admin_clear_reclaim_pending t n) s s' o h = kept_books (ground arith)
