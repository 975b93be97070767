-- ===== src/Examples/Pricing.antt =====
-- Names, keys, rents and lifecycles at concrete inputs.
use hos_tla_contracts.Base.{
  Option, arith, codes, err, length, lookup, none, ok, refl, sat_add, sat_mul, some, text_eq,
  u128_max, u64_max, ℕ, ◌*◌, ◌+◌, ◌/◌, ◌↔◌, ◌≡◌, ◌≢◌, ◌≤◌, ◌⊎◌,
}
use hos_tla_contracts.Examples.Fixtures.{
  alice, call, config, open_entry, registry, shop, shop_entry, shop_key, tla,
}
use hos_tla_contracts.Host.{Host}
use hos_tla_contracts.Registry.Errors.{disallowed_character, edge_separator, invalid_name}
use hos_tla_contracts.Registry.Fees.{split_resale, sub_account_rent}
use hos_tla_contracts.Registry.Lifetime.{
  HasLapsed, reclaimable_iff, reclaimable_persists, sellable_or_reclaimable,
}
use hos_tla_contracts.Registry.NameKeys.{
  IsValidName, sub_account_key_injective, total_name_length_exact, validate_name_iff,
}
use hos_tla_contracts.Registry.Names.{
  is_name_byte, is_separator, sub_account_key, total_name_length, validate_name,
}
use hos_tla_contracts.Registry.Pricing.{
  IsDescending, split_resale_conserves, sub_account_rent_antitone,
}
use hos_tla_contracts.Registry.Reclaim.{resolve_reclaimable}
use hos_tla_contracts.Registry.Sales.{assert_sellable}
use hos_tla_contracts.Registry.Types.{
  LifecycleStatus, PremiumCategory, TlaStatus, effective_sub_lifecycle,
}

split_resale_at_ten_percent : split_resale 30 1000 ≡ (3, 27)
unfolding split_resale sat_mul
split_resale_at_ten_percent = refl

shop-accepted : validate_name shop ≡ ok tt
unfolding validate_name is_name_byte is_separator
shop-accepted = refl

upper_case_refused : validate_name (codes "Shop") ≡ err (invalid_name disallowed_character)
unfolding validate_name is_name_byte is_separator
upper_case_refused = refl

trailing_separator_refused : validate_name (codes "shop-") ≡ err (invalid_name edge_separator)
unfolding validate_name is_name_byte is_separator
trailing_separator_refused = refl

split_resale_conserves_example :
    let (commission, proceeds) = split_resale 30 1000 in
    (commission + proceeds ≡ 30)
    × (commission ≤ 30)
    × (30 * 1000 ≤ u128_max → 1000 ≤ 10000 → commission ≡ 30 * 1000 / 10000)
split_resale_conserves_example = split_resale_conserves 30 1000

config-IsDescending : IsDescending config
config-IsDescending = omega arith

sub_account_rent_antitone_example :
    sub_account_rent 9 PremiumCategory.standard config
    ≤ sub_account_rent 5 PremiumCategory.standard config
sub_account_rent_antitone_example =
    sub_account_rent_antitone config PremiumCategory.standard 5 9 config-IsDescending (omega arith)

validate_name_iff_example : (validate_name shop ≡ ok tt) ↔ IsValidName shop
validate_name_iff_example = validate_name_iff shop

sub_account_key_injective_example : (shop ≡ shop) × (tla ≡ tla)
sub_account_key_injective_example =
    sub_account_key_injective tla tla shop shop shop-accepted shop-accepted refl

total_name_length_exact_example : total_name_length tla shop ≡ length (sub_account_key tla shop)
total_name_length_exact_example = total_name_length_exact tla shop shop-accepted (omega arith)

abbrev early : Host
early = call alice 0 200

abbrev late : Host
late = call alice 0 600

abbrev later : Host
later = call alice 0 900

late-reclaimable :
    effective_sub_lifecycle late shop_entry open_entry 70 100 ≡ LifecycleStatus.reclaimable
unfolding effective_sub_lifecycle sat_add
late-reclaimable = refl

reclaimable_persists_example :
    effective_sub_lifecycle later shop_entry open_entry 70 100 ≡ LifecycleStatus.reclaimable
reclaimable_persists_example =
    reclaimable_persists late later shop_entry open_entry 70 100 (omega arith) late-reclaimable

shop-sellable : assert_sellable early shop_key tla registry ≡ ok alice
unfolding assert_sellable lookup text_eq sat_add
shop-sellable = refl

sellable_or_reclaimable_example :
    resolve_reclaimable early tla shop_key registry ≢ ok (shop_key, alice)
sellable_or_reclaimable_example =
    sellable_or_reclaimable early shop_key tla alice registry shop-sellable (shop_key, alice)

reclaimable_iff_example :
    (effective_sub_lifecycle late shop_entry open_entry 70 100 ≡ LifecycleStatus.reclaimable) ↔ (
      ((TlaStatus.active ≡ TlaStatus.active) × HasLapsed late 1000 100)
      ⊎ ((at : ℕ) × (◌≡◌ {A = Option ℕ} none (some at)) × (sat_add u64_max at 70 ≤ 600))
      ⊎ HasLapsed late 500 100)
reclaimable_iff_example = reclaimable_iff late shop_entry open_entry 70 100
