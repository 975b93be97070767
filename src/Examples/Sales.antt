-- ===== src/Examples/Sales.antt =====
-- The resale market and the rentals at concrete inputs.
use hos_tla_contracts.Base.{
  Text, [], codes, false, inl, insert, length, lookup, ok, refl, sat_add, sat_mul, some, text_eq,
  true, ◌↔◌, ◌∷◌, ◌≡◌,
}
use hos_tla_contracts.Examples.Fixtures.{
  after_first, bob, call, key_of, promise_of, registry, root, shop, shop_key, tla,
}
use hos_tla_contracts.Host.{Host, successful}
use hos_tla_contracts.Registry.AssetGate.{clear, ft_balances_clear}
use hos_tla_contracts.Registry.Balances.{AreEmptyBalances, ft_balances_clear_iff}
use hos_tla_contracts.Registry.Buying.{buy_sub_account}
use hos_tla_contracts.Registry.Fees.{calculate_rent}
use hos_tla_contracts.Registry.Names.{sub_account_key, validate_name}
use hos_tla_contracts.Registry.Promises.{PendingBuy, Promise}
use hos_tla_contracts.Registry.Rental.{rent_sub_account}
use hos_tla_contracts.Registry.RentalRules.{AllowedRental, rent_sub_account_checks}
use hos_tla_contracts.Registry.SaleLock.{
  IsLocked, ReleasesLock, SaleCall, locked_refuses, passes, sale_ends_idle,
}
use hos_tla_contracts.Registry.SaleTerms.{Buys, buy_locks_sale}
use hos_tla_contracts.Registry.Sales.{assert_sellable, resolve_and_lock_sale}
use hos_tla_contracts.Registry.State.{TlaRegistry}
use hos_tla_contracts.Registry.Types.{Listing}

abbrev locked_listing : Listing
locked_listing = record { price = 30; settling = true; owner_key = key_of 1 }

abbrev locked_registry : TlaRegistry
locked_registry = record registry { listings = (shop_key, locked_listing) ∷ [] }

shop-IsLocked : IsLocked (sub_account_key tla shop) locked_registry
unfolding lookup text_eq sub_account_key
shop-IsLocked = inl refl

locked_refuses_example :
    passes (call bob 35 10) tla shop (SaleCall.buy (key_of 2)) locked_registry ≡ false
locked_refuses_example =
    locked_refuses (call bob 35 10) tla shop (SaleCall.buy (key_of 2)) locked_registry shop-IsLocked

abbrev shop_sale : PendingBuy
shop_sale = record {
  tla_id = tla;
  name = shop;
  buyer = bob;
  new_owner_key = key_of 2;
  price = 30;
  deposit = 35;
  owner_key = key_of 1;
  sub_account = shop_key;
}

sale_ends_idle_example : ReleasesLock (call bob 0 10) (some true) shop_sale [] root locked_registry
sale_ends_idle_example =
    sale_ends_idle (call bob 0 10) (some true) shop_sale [] root locked_registry

abbrev buy_call : Host
buy_call = call bob 35 10

abbrev bought : TlaRegistry
bought = after_first registry (buy_sub_account buy_call tla shop (key_of 2) registry)

abbrev buy_shop : Promise
buy_shop = promise_of (buy_sub_account buy_call tla shop (key_of 2) registry)

buy_ok : buy_sub_account buy_call tla shop (key_of 2) registry ≡ ok (bought, buy_shop)
unfolding buy_sub_account validate_name assert_sellable resolve_and_lock_sale lookup insert text_eq
    sub_account_key
buy_ok = refl

buy_locks_sale_example :
    Buys buy_call (call bob 0 11) registry tla shop (key_of 2) registry bought buy_shop
buy_locks_sale_example =
    buy_locks_sale buy_call (call bob 0 11) registry tla shop (key_of 2) registry bought buy_shop
      buy_ok

abbrev cafe : Text
cafe = codes "cafe"

abbrev rent_call : Host
rent_call = call bob 60 10

abbrev rented : TlaRegistry
rented = after_first registry (rent_sub_account rent_call tla cafe (key_of 3) bob registry)

abbrev rent_cafe : Promise
rent_cafe = promise_of (rent_sub_account rent_call tla cafe (key_of 3) bob registry)

rent_ok : rent_sub_account rent_call tla cafe (key_of 3) bob registry ≡ ok (rented, rent_cafe)
unfolding rent_sub_account calculate_rent sat_add sat_mul lookup insert text_eq sub_account_key
rent_ok = refl

rent_sub_account_checks_example : AllowedRental rent_call tla cafe bob registry rented
rent_sub_account_checks_example =
    rent_sub_account_checks rent_call tla cafe (key_of 3) bob registry rented rent_cafe rent_ok

abbrev gate_call : Host
gate_call = record (call bob 0 10) { promise_results = successful (0 ∷ []) ∷ [] }

ft_balances_clear_iff_example : (ft_balances_clear gate_call (bob ∷ []) ≡ clear) ↔ (
    (length gate_call.promise_results ≡ length (bob ∷ []))
    × AreEmptyBalances gate_call gate_call.promise_results)
ft_balances_clear_iff_example = ft_balances_clear_iff gate_call (bob ∷ [])
