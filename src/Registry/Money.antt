-- ===== src/Registry/Money.antt =====
-- Conservation of value: what a call takes in is revenue, a refund owed, or passed on.
pub mod Settlement
pub mod Ledger
use hos_tla_contracts.Base.{
  Text, arith, inl, inr, ok, sat_add, u128_max, ℕ, ◌+◌, ◌-◌, ◌≡◌, ◌≤◌, ◌⊎◌,
}
use hos_tla_contracts.Host.{Host}
use hos_tla_contracts.Registry.Renewal.{renew_sub_account, renew_tla}
use hos_tla_contracts.Registry.Rental.{activate_tla}
use hos_tla_contracts.Registry.State.{TlaRegistry, add_pending_refund, refund_excess}

-- What the registry owns and owes, as its two totals say.
abbrev pub books : TlaRegistry → ℕ
books s = s.total_revenue + s.total_pending_refunds

pub books-add_pending_refund :
    (account : Text) (amount : ℕ) (s : TlaRegistry)
    → books s + amount ≤ u128_max
    → books (add_pending_refund account amount s) ≡ books s + amount
unfolding add_pending_refund sat_add
books-add_pending_refund account amount s h = omega arith

pub books-refund_excess :
    (payer : Text) (attached charged : ℕ) (s : TlaRegistry)
    → books s + (attached - charged) ≤ u128_max
    → books (refund_excess payer attached charged s) ≡ books s + (attached - charged)
unfolding refund_excess sat_add
books-refund_excess payer attached charged s h = ground arith

-- A successful activation of a business TLA adds exactly the attached deposit to revenue plus
-- refunds owed, while the sum fits a u128.
pub activate_tla_conserves :
    (env : Host) (tla_id : Text) (s s' : TlaRegistry)
    → books s + env.attached_deposit ≤ u128_max
    → activate_tla env tla_id s ≡ ok s'
    → books s' ≡ books s + env.attached_deposit
unfolding activate_tla sat_add
activate_tla_conserves env tla_id s s' h e = ground arith

renew_tla_conserves :
    (env : Host) (tla_id : Text) (s s' : TlaRegistry)
    → books s + env.attached_deposit ≤ u128_max
    → renew_tla env tla_id s ≡ ok s'
    → books s' ≡ books s + env.attached_deposit
unfolding renew_tla sat_add
renew_tla_conserves env tla_id s s' h e = ground arith

renew_sub_account_conserves :
    (env : Host) (tla_id name : Text) (s s' : TlaRegistry)
    → books s + env.attached_deposit ≤ u128_max
    → renew_sub_account env tla_id name s ≡ ok s'
    → books s' ≡ books s + env.attached_deposit
unfolding renew_sub_account sat_add
renew_sub_account_conserves env tla_id name s s' h e = ground arith

-- A successful renewal of a TLA or of a sub-account adds exactly the attached deposit to revenue
-- plus refunds owed, while the sum fits a u128.
pub renewal_conserves :
    (env : Host) (tla_id name : Text) (s s' : TlaRegistry)
    → books s + env.attached_deposit ≤ u128_max
    → (renew_tla env tla_id s ≡ ok s') ⊎ (renew_sub_account env tla_id name s ≡ ok s')
    → books s' ≡ books s + env.attached_deposit
renewal_conserves env tla_id name s s' h (inl e) = renew_tla_conserves env tla_id s s' h e
renewal_conserves env tla_id name s s' h (inr e) =
    renew_sub_account_conserves env tla_id name s s' h e
