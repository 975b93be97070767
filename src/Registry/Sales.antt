-- ===== src/Registry/Sales.antt =====
-- contracts/tla-registry/src/marketplace.rs: the guards of a sale, and its lock.
use hos_tla_contracts.Base.{
  Bool, Text, contains_key, ensure, err, false, if◌then◌else◌, is_some, lookup, ltb, modify, none,
  ok, ok_or, reject, some, text_eq, true, ℕ, ◌==◌, ◌>>=◌, ◌>>◌,
}
use hos_tla_contracts.Common.Keys.{is_ed25519}
use hos_tla_contracts.Host.{Host, PublicKey, parse_account}
use hos_tla_contracts.Registry.Errors.{
  Reply, business_sub_not_resellable, invalid_price, invalid_sub_account_id, not_ed25519,
  not_listed, only_owner, price_not_met, retraction_pending, sale_in_progress,
  sub_account_is_mother, sub_account_not_found, sub_account_not_sellable, sub_account_tla_mismatch,
  tla_not_found,
}
use hos_tla_contracts.Registry.Mother.{mother_uses}
use hos_tla_contracts.Registry.Names.{sub_account_key, validate_name}
use hos_tla_contracts.Registry.State.{TlaRegistry, assert_not_paused, assert_one_yocto}
use hos_tla_contracts.Registry.Types.{effective_sub_lifecycle, is_active, is_business, is_live}

-- A flag of a listing or an offer, absent counting as not set.
abbrev pub listing_settling : Text → TlaRegistry → Bool
listing_settling key s = elim (lookup key s.listings) [ none ↦ false | some l ↦ l.settling ]

abbrev pub offer_settling : Text → TlaRegistry → Bool
offer_settling key s = elim (lookup key s.accepted_offers) [ none ↦ false | some o ↦ o.settling ]

unfoldable pub assert_sale_idle : Text → TlaRegistry → Reply (Unit {0})
assert_sale_idle key s = do
  reject (listing_settling key s) sale_in_progress
  reject (offer_settling key s) sale_in_progress

unfoldable pub assert_sellable : Host → Text → Text → TlaRegistry → Reply Text
unfolding mother_uses is_business is_active effective_sub_lifecycle is_live
assert_sellable env key tla_id s = do
  sub_account ← ok_or (parse_account env key) invalid_sub_account_id
  reject (ltb 0 (mother_uses sub_account s)) sub_account_is_mother
  reject (contains_key key s.signer_pending) sub_account_not_sellable
  sub ← ok_or (lookup key s.sub_accounts) sub_account_not_found
  ensure (text_eq sub.tla_id tla_id) sub_account_tla_mismatch
  reject (is_some sub.retraction_at) retraction_pending
  tla ← ok_or (lookup tla_id s.tlas) tla_not_found
  reject (is_business tla.tla_type) business_sub_not_resellable
  ensure (is_active tla.status) sub_account_not_sellable
  ensure
      (is_live
        (effective_sub_lifecycle env sub tla s.fee_config.retraction_notice_ns s.grace_period_ns))
      sub_account_not_sellable
  ok sub.owner

-- The sub-account and its owner.
unfoldable pub assert_listable :
    Host → Text → Text → ℕ → PublicKey → TlaRegistry → Reply (Text × Text)
unfolding assert_one_yocto assert_not_paused validate_name is_ed25519 assert_sale_idle
    assert_sellable
assert_listable env tla_id name price owner_key s = do
  assert_one_yocto env
  assert_not_paused s
  validate_name name
  reject (price == 0) invalid_price
  ensure (is_ed25519 owner_key) not_ed25519
  let key = sub_account_key tla_id name
  assert_sale_idle key s
  owner ← assert_sellable env key tla_id s
  ensure (text_eq env.predecessor owner) only_owner
  sub_account ← ok_or (parse_account env key) invalid_sub_account_id
  ok (sub_account, owner)

unfoldable pub sub_account_owner : Text → TlaRegistry → Reply Text
sub_account_owner key s = elim (lookup key s.sub_accounts) [
  | none ↦ err sub_account_not_found
  | some sub ↦ ok sub.owner
]

-- `listing.settling = flag` and `offer.settling = flag`, through `get_mut`
unfoldable pub set_listing_settling : Bool → Text → TlaRegistry → TlaRegistry
set_listing_settling flag key s = record s {
  listings = modify key (λ l. record l { settling = flag }) s.listings;
}

unfoldable pub set_offer_settling : Bool → Text → TlaRegistry → TlaRegistry
set_offer_settling flag key s = record s {
  accepted_offers = modify key (λ o. record o { settling = flag }) s.accepted_offers;
}

-- The terms of a sale: the new state, the price and the owner key that the sale is bound to.
abbrev pub Terms : Type 0
Terms = TlaRegistry × ℕ × PublicKey

unfoldable pub lock_listing : Text → ℕ → TlaRegistry → Reply Terms
unfolding set_listing_settling
lock_listing key deposit s = do
  listing ← ok_or (lookup key s.listings) not_listed
  reject (ltb deposit listing.price) price_not_met
  ok (set_listing_settling true key s, listing.price, listing.owner_key)

unfoldable pub resolve_and_lock_sale : Text → Text → ℕ → TlaRegistry → Reply Terms
unfolding lock_listing set_offer_settling
resolve_and_lock_sale key buyer deposit s = elim (lookup key s.accepted_offers) [
  | none ↦ lock_listing key deposit s
  | some offer ↦
      if text_eq offer.buyer buyer
      then (do
        reject (ltb deposit offer.price) price_not_met
        ok (set_offer_settling true key s, offer.price, offer.owner_key))
      else lock_listing key deposit s
]

unfoldable pub lock_paid_listing : Text → TlaRegistry → Reply Terms
unfolding set_listing_settling
lock_paid_listing key s = do
  listing ← ok_or (lookup key s.listings) not_listed
  ok (set_listing_settling true key s, listing.price, listing.owner_key)

unfoldable pub resolve_and_lock_paid_sale : Text → Text → TlaRegistry → Reply Terms
unfolding lock_paid_listing set_offer_settling
resolve_and_lock_paid_sale key buyer s = elim (lookup key s.accepted_offers) [
  | none ↦ lock_paid_listing key s
  | some offer ↦
      if text_eq offer.buyer buyer
      then ok (set_offer_settling true key s, offer.price, offer.owner_key)
      else lock_paid_listing key s
]

unfoldable pub clear_settling : Text → TlaRegistry → TlaRegistry
unfolding set_listing_settling set_offer_settling
clear_settling key s = set_offer_settling false key (set_listing_settling false key s)
