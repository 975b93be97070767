-- ===== src/Registry/Views/Lookups.antt =====
-- contracts/tla-registry/src/views.rs, with the views of lib.rs, mother.rs, business.rs and marketplace.rs:
-- what the contract answers from its state. The getters of a single field are left out.
use mathlib.Core.Option
use mathlib.Core.Option.{Option}
use hos_tla_contracts.Base.{
  Bool, List, Text, [], contains_key, length, lookup, ltb, map, not, or_else, suc, zero, ℕ, ◌%◌,
  ◌^◌, ◌∷◌,
}
use hos_tla_contracts.Host.{Host}
use hos_tla_contracts.Registry.Fees.{base_rent, calculate_rent}
use hos_tla_contracts.Registry.Mother.{mother_uses}
use hos_tla_contracts.Registry.Names.{sub_account_key}
use hos_tla_contracts.Registry.State.{TlaRegistry}
use hos_tla_contracts.Registry.Types.{
  FeeConfig, SubAccountEntry, TlaEntry, sub_lifecycle, tla_lifecycle,
}
use hos_tla_contracts.Registry.Views.Records.{
  AcceptedOfferView, ListingView, ParkedSubAccountView, RegistryStats, SubAccountView, TlaView,
}

-- The length is cast to `u8`.
unfoldable pub to_tla_view : Host → Text → TlaEntry → FeeConfig → ℕ → TlaView
to_tla_view env tla_id entry config grace_period_ns = record {
  tla_id = tla_id;
  tla_type = entry.tla_type;
  lifecycle = tla_lifecycle env entry grace_period_ns;
  licensee = entry.licensee;
  premium_category = entry.premium_category;
  activated_at = entry.activated_at;
  expires_at = entry.expires_at;
  annual_rent = base_rent (length tla_id % 256) config;
}

unfoldable pub to_sub_view :
    Host → Text → SubAccountEntry → TlaEntry → Text → Text → FeeConfig → ℕ → SubAccountView
to_sub_view env key entry tla tla_id name config grace_period_ns = record {
  full_name = key;
  owner = entry.owner;
  tla_id = entry.tla_id;
  main_wallet = entry.main_wallet;
  lifecycle = sub_lifecycle env entry grace_period_ns;
  rented_at = entry.rented_at;
  expires_at = entry.expires_at;
  annual_rent = calculate_rent tla tla_id name config;
}

unfoldable pub get_tla : Host → Text → TlaRegistry → Option TlaView
unfolding to_tla_view
get_tla env tla_id s =
    Option.map (λ e. to_tla_view env tla_id e s.fee_config s.grace_period_ns) (lookup tla_id s.tlas)

unfoldable pub get_sub_account : Host → Text → Text → TlaRegistry → Option SubAccountView
unfolding to_sub_view
get_sub_account env tla_id name s =
    let key = sub_account_key tla_id name in
    Option.bind (lookup key s.sub_accounts) (λ sub.
      Option.map (λ tla. to_sub_view env key sub tla tla_id name s.fee_config s.grace_period_ns)
        (lookup tla_id s.tlas))

unfoldable pub get_parked_sub_account : Text → Text → TlaRegistry → Option ParkedSubAccountView
get_parked_sub_account tla_id name s =
    let key = sub_account_key tla_id name in
    Option.map (λ p. record { full_name = key; tla_id = p.tla_id; parked_at = p.parked_at })
      (lookup key s.parked_names)

unfoldable pub is_name_re_rentable : Text → Text → TlaRegistry → Bool
is_name_re_rentable tla_id name s = contains_key (sub_account_key tla_id name) s.parked_names

unfoldable pub is_reclaim_in_progress : Text → Text → TlaRegistry → Bool
is_reclaim_in_progress tla_id name s = contains_key (sub_account_key tla_id name) s.reclaim_pending

unfoldable pub is_name_available : Text → Text → TlaRegistry → Bool
is_name_available tla_id name s = not (contains_key (sub_account_key tla_id name) s.sub_accounts)

unfoldable pub is_signer_pending : Text → Text → TlaRegistry → Bool
is_signer_pending tla_id name s = contains_key (sub_account_key tla_id name) s.signer_pending

-- `skip` and `take` of an iterator.
unfoldable pub skip {ℓ} : {A : Type ℓ} → ℕ → List A → List A
skip n [] = []
skip zero (x ∷ xs) = x ∷ xs
skip (suc n) (x ∷ xs) = skip n xs

unfoldable pub take {ℓ} : {A : Type ℓ} → ℕ → List A → List A
take n [] = []
take zero (x ∷ xs) = []
take (suc n) (x ∷ xs) = x ∷ take n xs

-- `as usize` on the 32-bit target of a contract.
unfoldable pub as_usize : ℕ → ℕ
as_usize n = n % 2 ^ 32

unfoldable pub list_tlas : Host → ℕ → ℕ → TlaRegistry → List TlaView
unfolding to_tla_view skip take as_usize
list_tlas env from_index limit s =
    map (λ e. to_tla_view env e.0 e.1 s.fee_config s.grace_period_ns)
      (take (as_usize limit) (skip (as_usize from_index) s.tlas))

unfoldable pub get_stats : TlaRegistry → RegistryStats
get_stats s = record {
  tla_count = length s.tlas;
  sub_account_count = s.sub_account_count;
  total_revenue_yocto = s.total_revenue;
  total_pending_refunds_yocto = s.total_pending_refunds;
}

unfoldable pub get_pending_refund : Text → TlaRegistry → ℕ
get_pending_refund account_id s = or_else (lookup account_id s.pending_refunds) 0

unfoldable pub is_mother : Text → TlaRegistry → Bool
unfolding mother_uses
is_mother account s = ltb 0 (mother_uses account s)

unfoldable pub get_retraction_at : Text → Text → TlaRegistry → Option ℕ
get_retraction_at tla_id name s =
    Option.bind (lookup (sub_account_key tla_id name) s.sub_accounts) (λ sub. sub.retraction_at)

unfoldable pub get_listing : Text → Text → TlaRegistry → Option ListingView
get_listing tla_id name s =
    let key = sub_account_key tla_id name in
    Option.map (λ l. record { full_name = key; price_yocto = l.price; settling = l.settling })
      (lookup key s.listings)

unfoldable pub get_accepted_offer : Text → Text → TlaRegistry → Option AcceptedOfferView
get_accepted_offer tla_id name s =
    let key = sub_account_key tla_id name in
    Option.map
      (λ o. record {
        full_name = key;
        buyer = o.buyer;
        price_yocto = o.price;
        settling = o.settling;
      })
      (lookup key s.accepted_offers)
