-- ===== src/Registry/Money/Settlement.antt =====
-- Conservation of value in the callbacks that settle a sale or a rental.
use hos_tla_contracts.Base.{
  Bool, Option, Text, arith, none, ok, sat_add, sat_mul, some, u128_max, ℕ, ◌+◌, ◌≡◌, ◌≤◌,
}
use hos_tla_contracts.Common.Keys.{MintOutcome}
use hos_tla_contracts.Host.{PublicKey}
use hos_tla_contracts.Registry.Buying.{sub_account_sold}
use hos_tla_contracts.Registry.Minting.{sub_account_created, sub_account_re_rented}
use hos_tla_contracts.Registry.Money.{books}
use hos_tla_contracts.Registry.State.{TlaRegistry}

-- Whatever the transfer's result, and whether or not the sub-account is still there, settling a
-- sale whose price the deposit covers adds exactly the deposit to revenue plus refunds owed,
-- while the sums fit a u128.
pub sub_account_sold_conserves :
    (swapped : Option Bool) (tla_id name buyer : Text) (price deposit : ℕ) (s : TlaRegistry)
    → price ≤ deposit
    → books s + deposit ≤ u128_max
    → books (sub_account_sold swapped tla_id name buyer price deposit s) ≡ books s + deposit
unfolding sub_account_sold sat_add sat_mul
sub_account_sold_conserves swapped tla_id name buyer price deposit s h fits = ground arith

-- What a mint keeps of the attached deposit: the creation deposit, as configured now, if it ran.
abbrev pub mint_cost : Option MintOutcome → TlaRegistry → ℕ
mint_cost none s = 0
mint_cost (some MintOutcome.creation_failed) s = 0
mint_cost (some MintOutcome.active) s = s.fee_config.account_creation_deposit
mint_cost (some MintOutcome.signer_pending) s = s.fee_config.account_creation_deposit

-- Settling a rental whose deposit covers rent and creation deposit books the attached deposit for
-- any outcome of the mint: less the creation deposit of the moment if the account was created,
-- all of it if not, while the sums fit a u128.
pub sub_account_created_conserves :
    (outcome : Option MintOutcome) (tla_id name payer : Text) (owner_key : PublicKey)
    (rent attached : ℕ) (s s' : TlaRegistry)
    → rent + s.fee_config.account_creation_deposit ≤ attached
    → books s + attached ≤ u128_max
    → sub_account_created outcome tla_id name payer owner_key rent attached s ≡ ok s'
    → books s' + mint_cost outcome s ≡ books s + attached
unfolding sub_account_created sat_add
sub_account_created_conserves none tla_id name payer key rent attached s s' h fits e = ground arith
sub_account_created_conserves (some MintOutcome.active) tla_id name payer key rent attached s s' h
      fits e =
    ground arith
sub_account_created_conserves (some MintOutcome.creation_failed) tla_id name payer key rent attached
      s s' h fits e =
    ground arith
sub_account_created_conserves (some MintOutcome.signer_pending) tla_id name payer key rent attached
      s s' h fits e =
    ground arith

-- Settling a re-rental whose deposit covers the rent adds exactly the attached deposit to revenue
-- plus refunds owed, whether or not the transfer succeeded, while the sum fits a u128.
pub sub_account_re_rented_conserves :
    (succeeded : Bool) (tla_id name payer : Text) (rent attached : ℕ) (s : TlaRegistry)
    → rent ≤ attached
    → books s + attached ≤ u128_max
    → books (sub_account_re_rented succeeded tla_id name payer rent attached s) ≡ books s + attached
unfolding sub_account_re_rented sat_add
sub_account_re_rented_conserves succeeded tla_id name payer rent attached s h fits = ground arith
