-- ===== src/Examples/Money.antt =====
-- Conservation of value at concrete inputs.
use hos_tla_contracts.Base.{
  arith, false, inr, insert, lookup, ok, refl, sat_add, sat_mul, some, text_eq, true, ◌+◌, ◌≡◌,
}
use hos_tla_contracts.Common.Keys.{MintOutcome}
use hos_tla_contracts.Examples.Fixtures.{
  after, after_first, alice, bob, call, corp, key_of, registry, shop, tla,
}
use hos_tla_contracts.Host.{Host}
use hos_tla_contracts.Registry.Admin.{claim_refund}
use hos_tla_contracts.Registry.Buying.{sub_account_sold}
use hos_tla_contracts.Registry.Fees.{base_rent, calculate_rent}
use hos_tla_contracts.Registry.Minting.{sub_account_created, sub_account_re_rented}
use hos_tla_contracts.Registry.Money.{activate_tla_conserves, books, renewal_conserves}
use hos_tla_contracts.Registry.Money.Settlement.{
  sub_account_created_conserves, sub_account_re_rented_conserves, sub_account_sold_conserves,
}
use hos_tla_contracts.Registry.Names.{sub_account_key}
use hos_tla_contracts.Registry.Renewal.{renew_sub_account}
use hos_tla_contracts.Registry.Rental.{activate_tla}
use hos_tla_contracts.Registry.State.{TlaRegistry}

abbrev activate_call : Host
activate_call = call bob 160 10

activate_ok :
    activate_tla activate_call corp registry
    ≡ ok (after registry (activate_tla activate_call corp registry))
unfolding activate_tla lookup insert text_eq sat_add base_rent
activate_ok = refl

activate_tla_conserves_example :
    books (after registry (activate_tla activate_call corp registry)) ≡ books registry + 160
activate_tla_conserves_example =
    activate_tla_conserves activate_call corp registry
      (after registry (activate_tla activate_call corp registry)) (omega arith) activate_ok

sub_account_sold_conserves_example :
    books (sub_account_sold (some true) tla shop bob 30 35 registry) ≡ books registry + 35
sub_account_sold_conserves_example =
    sub_account_sold_conserves (some true) tla shop bob 30 35 registry (omega arith) (omega arith)

abbrev minted : TlaRegistry
minted =
    after registry (
      sub_account_created (some MintOutcome.signer_pending) tla shop alice (key_of 1) 50 60
        registry)

minted_ok :
    sub_account_created (some MintOutcome.signer_pending) tla shop alice (key_of 1) 50 60 registry
    ≡ ok minted
unfolding sub_account_created sub_account_key lookup insert text_eq sat_add
minted_ok = refl

sub_account_created_conserves_example : books minted + 2 ≡ books registry + 60
sub_account_created_conserves_example =
    sub_account_created_conserves (some MintOutcome.signer_pending) tla shop alice (key_of 1) 50 60
      registry minted (omega arith) (omega arith) minted_ok

abbrev claim_call : Host
claim_call = call alice 0 5

abbrev claimed : TlaRegistry
claimed = after_first registry (claim_refund claim_call registry)

abbrev renew_shop : Host
renew_shop = call alice 60 10

renew_shop_ok :
    renew_sub_account renew_shop tla shop registry
    ≡ ok (after registry (renew_sub_account renew_shop tla shop registry))
unfolding renew_sub_account lookup insert text_eq sat_add sat_mul calculate_rent sub_account_key
renew_shop_ok = refl

renewal_conserves_example :
    books (after registry (renew_sub_account renew_shop tla shop registry)) ≡ books registry + 60
renewal_conserves_example =
    renewal_conserves renew_shop tla shop registry
      (after registry (renew_sub_account renew_shop tla shop registry)) (omega arith)
      (inr renew_shop_ok)

sub_account_re_rented_conserves_example :
    books (sub_account_re_rented false tla shop alice 50 60 registry) ≡ books registry + 60
sub_account_re_rented_conserves_example =
    sub_account_re_rented_conserves false tla shop alice 50 60 registry (omega arith) (omega arith)
