-- ===== src/Registry/Listings.antt =====
-- contracts/tla-registry/src/marketplace.rs: listings and accepted offers.
use hos_tla_contracts.Base.{
  Bool, Option, Text, [], codes, contains_key, ensure, false, if◌then◌else◌, insert, lookup, none,
  not, ok, ok_or, or_else, reject, remove, some, strip_prefix, text_eq, ℕ, ◌>>=◌, ◌>>◌, ◌∷◌,
}
use hos_tla_contracts.Common.Keys.{ed25519_base58}
use hos_tla_contracts.Host.{Host, PublicKey}
use hos_tla_contracts.Registry.Errors.{
  Reply, main_wallet_equals_sub_account, no_accepted_offer, not_listed, only_owner,
  sub_account_not_found,
}
use hos_tla_contracts.Registry.Names.{sub_account_key, validate_name}
use hos_tla_contracts.Registry.Promises.{
  Promise, on_listing_verified, on_offer_verified, signer_of, then_call,
}
use hos_tla_contracts.Registry.Sales.{
  assert_listable, assert_sale_idle, listing_settling, offer_settling, sub_account_owner,
}
use hos_tla_contracts.Registry.State.{TlaRegistry, assert_not_paused, assert_one_yocto}
use hos_tla_contracts.Registry.Types.{AcceptedOffer, Listing}

-- The signer that active-signer reports, with or without its prefix, is the key that was given.
-- `none` is a failed query, `some none` a wallet with no signer.
unfoldable pub current_key_matches : Host → Option (Option Text) → PublicKey → Bool
unfolding ed25519_base58
current_key_matches env (some (some signer)) owner_key = elim (ed25519_base58 env owner_key) [
  | some expected ↦ text_eq (or_else (strip_prefix (codes "ed25519:") signer) signer) expected
  | none ↦ false
]
current_key_matches env (some none) owner_key = false
current_key_matches env none owner_key = false

unfoldable pub list_sub_account :
    Host → Text → Text → ℕ → PublicKey → TlaRegistry → Reply (TlaRegistry × Promise)
unfolding assert_listable
list_sub_account env tla_id name price owner_key s = do
  listable ← assert_listable env tla_id name price owner_key s
  ok (
    s,
    then_call (signer_of s.active_signer listable.0 ∷ [])
        (on_listing_verified tla_id name price owner_key listable.1),
  )

-- `self.sub_accounts.get(&key).map(|s| s.owner) == Some(&seller)`
unfoldable pub is_owned_by : Text → Text → TlaRegistry → Bool
is_owned_by key seller s = elim (lookup key s.sub_accounts) [
  | none ↦ false
  | some sub ↦ text_eq sub.owner seller
]

unfoldable pub listing_verified :
    Host → Option (Option Text) → Text → Text → ℕ → PublicKey → Text → TlaRegistry → TlaRegistry
unfolding current_key_matches is_owned_by
listing_verified env current tla_id name price owner_key seller s =
    let key = sub_account_key tla_id name in
    let listing : Listing = record { price = price; settling = false; owner_key = owner_key } in
    if not (current_key_matches env current owner_key)
    then s
    else if not (is_owned_by key seller s)
    then s
    else if listing_settling key s
    then s
    else record s { listings = insert key listing s.listings }

unfoldable pub unlist_sub_account : Host → Text → Text → TlaRegistry → Reply TlaRegistry
unfolding assert_one_yocto assert_not_paused validate_name assert_sale_idle sub_account_owner
unlist_sub_account env tla_id name s = do
  assert_one_yocto env
  assert_not_paused s
  validate_name name
  let key = sub_account_key tla_id name
  assert_sale_idle key s
  ensure (contains_key key s.listings) not_listed
  owner ← sub_account_owner key s
  ensure (text_eq env.predecessor owner) only_owner
  ok (record s { listings = remove key s.listings })

unfoldable pub accept_offer :
    Host → Text → Text → Text → ℕ → PublicKey → TlaRegistry → Reply (TlaRegistry × Promise)
unfolding assert_listable
accept_offer env tla_id name buyer price owner_key s = do
  listable ← assert_listable env tla_id name price owner_key s
  ok (
    s,
    then_call (signer_of s.active_signer listable.0 ∷ [])
        (on_offer_verified tla_id name buyer price owner_key listable.1),
  )

unfoldable pub offer_verified :
    Host
    → Option (Option Text)
    → Text
    → Text
    → Text
    → ℕ
    → PublicKey
    → Text
    → TlaRegistry
    → TlaRegistry
unfolding current_key_matches is_owned_by
offer_verified env current tla_id name buyer price owner_key seller s =
    let key = sub_account_key tla_id name in
    let offer : AcceptedOffer = record {
      buyer = buyer;
      price = price;
      settling = false;
      owner_key = owner_key;
    } in
    if not (current_key_matches env current owner_key)
    then s
    else if not (is_owned_by key seller s)
    then s
    else if offer_settling key s
    then s
    else record s { accepted_offers = insert key offer s.accepted_offers }

unfoldable pub revoke_offer : Host → Text → Text → TlaRegistry → Reply TlaRegistry
unfolding assert_one_yocto assert_not_paused validate_name assert_sale_idle sub_account_owner
revoke_offer env tla_id name s = do
  assert_one_yocto env
  assert_not_paused s
  validate_name name
  let key = sub_account_key tla_id name
  assert_sale_idle key s
  ensure (contains_key key s.accepted_offers) no_accepted_offer
  owner ← sub_account_owner key s
  ensure (text_eq env.predecessor owner) only_owner
  ok (record s { accepted_offers = remove key s.accepted_offers })

-- rental.rs: the wallet of record may not change under a sale.
unfoldable pub set_main_wallet : Host → Text → Text → Text → TlaRegistry → Reply TlaRegistry
unfolding assert_one_yocto assert_not_paused assert_sale_idle
set_main_wallet env tla_id name new_wallet s = do
  assert_one_yocto env
  assert_not_paused s
  let key = sub_account_key tla_id name
  assert_sale_idle key s
  reject (text_eq new_wallet key) main_wallet_equals_sub_account
  sub ← ok_or (lookup key s.sub_accounts) sub_account_not_found
  ensure (text_eq env.predecessor sub.owner) only_owner
  let sub' = record sub { main_wallet = new_wallet }
  ok (record s { sub_accounts = insert key sub' s.sub_accounts })
