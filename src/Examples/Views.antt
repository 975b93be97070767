-- ===== src/Examples/Views.antt =====
-- The quotes of contracts/tla-registry at concrete inputs.
use hos_tla_contracts.Base.{
  Text, [], arith, codes, lookup, ok, refl, sat_add, sat_mul, some, text_eq, ◌∷◌, ◌≡◌,
}
use hos_tla_contracts.Examples.Fixtures.{after, bob, call, corp, corp_entry, key_of, registry, tla}
use hos_tla_contracts.Registry.Fees.{base_rent, calculate_rent, sub_account_rent}
use hos_tla_contracts.Registry.Names.{sub_account_key, total_name_length}
use hos_tla_contracts.Registry.Renewal.{renew_tla}
use hos_tla_contracts.Registry.State.{TlaRegistry}
use hos_tla_contracts.Registry.Types.{TlaEntry, TlaStatus, multiplier}
use hos_tla_contracts.Registry.Views.Lookups.{get_tla}
use hos_tla_contracts.Registry.Views.Prices.{get_rent_price}
use hos_tla_contracts.Registry.Views.Quotes.{
  BusinessQuote, Charges, IsQuoted, renewal_quoted, rent_price_exact,
}
use hos_tla_contracts.Registry.Views.Records.{RentPriceView, TlaView}

abbrev blog : Text
blog = codes "blog"

-- The length of the whole name is 8, and a standard name costs half as much again.
abbrev blog_quote : RentPriceView
blog_quote = record { rent_yocto = 30; creation_deposit_yocto = 2; total_yocto = 32 }

blog_quoted : get_rent_price tla blog registry ≡ ok blog_quote
unfolding get_rent_price lookup text_eq calculate_rent sat_add sat_mul sub_account_rent
    total_name_length sub_account_key base_rent multiplier
blog_quoted = refl

rent_price_exact_example : IsQuoted (call bob 31 10) tla blog (key_of 3) bob registry 32
rent_price_exact_example =
    rent_price_exact (call bob 31 10) tla blog (key_of 3) bob registry blog_quote (ground arith)
      blog_quoted

abbrev business_registry : TlaRegistry
business_registry = record registry {
  tlas = (corp, record corp_entry { status = TlaStatus.active; expires_at = 50 }) ∷ [];
}

abbrev renewed : TlaRegistry
renewed = after business_registry (renew_tla (call bob 60 10) corp business_registry)

renewed_ok : renew_tla (call bob 60 10) corp business_registry ≡ ok renewed
unfolding renew_tla lookup text_eq sat_add base_rent
renewed_ok = refl

renewal_quoted_example :
    (tla : TlaEntry) × (v : TlaView) × (lookup corp business_registry.tlas ≡ some tla)
    × (get_tla (call bob 60 10) corp business_registry ≡ some v)
    × Charges v.annual_rent (call bob 60 10) business_registry renewed
    × BusinessQuote corp tla business_registry v.annual_rent
renewal_quoted_example = renewal_quoted (call bob 60 10) corp business_registry renewed renewed_ok
