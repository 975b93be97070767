-- ===== src/Registry/Handover.antt =====
-- What the end of a sale leaves of its sub-account (marketplace.rs).
use hos_tla_contracts.Registry.Buying
use hos_tla_contracts.Base.{
  Bool, Option, Option-cases, Text, ap, arith, false, inl, inr, insert, lookup, lookup-insert,
  lookup-remove, modify, none, or_else, refl, sat_add, some, text_eq_refl, true, u128_max, ℕ, ◌∙◌,
  ◌≡◌, ◌≢◌,
}
use hos_tla_contracts.Registry.Names.{sub_account_key}
use hos_tla_contracts.Registry.Sales.{clear_settling}
use hos_tla_contracts.Registry.State.{TlaRegistry, add_pending_refund}
use hos_tla_contracts.Registry.Types.{SubAccountEntry}

-- The deposit is owed to the buyer, the sale is unlocked, and nothing else is changed.
abbrev pub paid_back : Text → Text → ℕ → TlaRegistry → TlaRegistry
paid_back item buyer deposit s = record s {
  listings = modify item (λ l. record l { settling = false }) s.listings;
  accepted_offers = modify item (λ o. record o { settling = false }) s.accepted_offers;
  pending_refunds =
      insert buyer (sat_add u128_max (or_else (lookup buyer s.pending_refunds) 0) deposit)
        s.pending_refunds;
  total_pending_refunds = sat_add u128_max s.total_pending_refunds deposit;
}

paid_back_lem :
    (item buyer : Text) (deposit : ℕ) (s : TlaRegistry)
    → clear_settling item (add_pending_refund buyer deposit s) ≡ paid_back item buyer deposit s
unfolding clear_settling add_pending_refund
paid_back_lem item buyer deposit s = elim (Option-cases (lookup item s.listings)) [
  | inl unlisted ↦ elim (Option-cases (lookup item s.accepted_offers)) [
    | inl no_offer ↦ ground arith
    | inr (o, offered) ↦ ground arith
  ]
  | inr (l, listed) ↦ elim (Option-cases (lookup item s.accepted_offers)) [
    | inl no_offer ↦ ground arith
    | inr (o, offered) ↦ ground arith
  ]
]

pub sold_back :
    (result : Option Bool) (tla_id name buyer : Text) (price deposit : ℕ) (s : TlaRegistry)
    → result ≢ some true
    → Buying.sub_account_sold result tla_id name buyer price deposit s
      ≡ paid_back (sub_account_key tla_id name) buyer deposit s
unfolding Buying.sub_account_sold
sold_back none tla_id name buyer price deposit s not_sold =
    paid_back_lem (sub_account_key tla_id name) buyer deposit s
sold_back (some false) tla_id name buyer price deposit s not_sold =
    paid_back_lem (sub_account_key tla_id name) buyer deposit s
sold_back (some true) tla_id name buyer price deposit s not_sold = absurd (not_sold refl)

pub sold_for_nothing :
    (tla_id name buyer : Text) (price deposit : ℕ) (s : TlaRegistry)
    → lookup (sub_account_key tla_id name) s.sub_accounts ≡ none
    → Buying.sub_account_sold (some true) tla_id name buyer price deposit s
      ≡ paid_back (sub_account_key tla_id name) buyer deposit s
unfolding Buying.sub_account_sold
sold_for_nothing tla_id name buyer price deposit s gone =
    rw gone (paid_back_lem (sub_account_key tla_id name) buyer deposit s)

booked_same :
    (sub : SubAccountEntry) (buyer : Text) (price deposit : ℕ) (s : TlaRegistry)
    → (Buying.settle_books sub buyer price deposit s).sub_accounts ≡ s.sub_accounts
unfolding Buying.settle_books
booked_same sub buyer price deposit s = ground arith

-- The buyer has the sub-account, which is off the market.
abbrev pub OffMarket : Text → Text → SubAccountEntry → TlaRegistry → Type 0
OffMarket item buyer sub s =
    (lookup item s.sub_accounts ≡ some (record sub { owner = buyer; main_wallet = buyer }))
    × (lookup item s.listings ≡ none)
    × (lookup item s.accepted_offers ≡ none)

handed_over :
    (item buyer : Text) (sub : SubAccountEntry) (s : TlaRegistry)
    → lookup item s.sub_accounts ≡ some sub
    → OffMarket item buyer sub (Buying.hand_over item buyer buyer s)
unfolding Buying.hand_over
handed_over item buyer sub s found =
    let bought = record sub { owner = buyer; main_wallet = buyer } in
    (
      ground (arith, found, lookup-insert item item bought s.sub_accounts, text_eq_refl item),
      ground (arith, lookup-remove item item s.listings, text_eq_refl item),
      ground (arith, lookup-remove item item s.accepted_offers, text_eq_refl item),
    )

pub sold_off :
    (tla_id name buyer : Text) (price deposit : ℕ) (sub : SubAccountEntry) (s : TlaRegistry)
    → lookup (sub_account_key tla_id name) s.sub_accounts ≡ some sub
    → OffMarket
        (sub_account_key tla_id name)
        buyer
        sub
        (Buying.sub_account_sold (some true) tla_id name buyer price deposit s)
unfolding Buying.sub_account_sold
sold_off tla_id name buyer price deposit sub s found =
    let item = sub_account_key tla_id name in
    let booked = Buying.settle_books sub buyer price deposit s in
    rw found (
      handed_over item buyer sub booked
        (ap (lookup item) (booked_same sub buyer price deposit s) ∙ found))
