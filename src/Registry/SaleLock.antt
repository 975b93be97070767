-- ===== src/Registry/SaleLock.antt =====
-- The sale lock (marketplace.rs): who takes it, what it forbids, and that every end of a sale
-- releases it.
use hos_tla_contracts.Base.{
  Bool, List, Option, Option-cases, Text, arith, false, inl, inr, is_ok, lookup, lookup-insert,
  lookup-remove, none, refl, some, text_eq_refl, true, ℕ, ◌≡◌, ◌⊎◌,
}
use hos_tla_contracts.Host.{Host, PublicKey}
use hos_tla_contracts.Registry.AssetGate.{BalanceGate, blocked, clear, ft_balances_clear}
use hos_tla_contracts.Registry.Buying.{
  buy_balances_checked, buy_paid_balances_checked, buy_sub_account, buy_sub_account_paid, hand_over,
  settle_books, sub_account_sold, sub_account_sold_paid,
}
use hos_tla_contracts.Registry.Listings.{
  accept_offer, list_sub_account, revoke_offer, set_main_wallet, unlist_sub_account,
}
use hos_tla_contracts.Registry.Names.{sub_account_key}
use hos_tla_contracts.Registry.Promises.{PendingBuy}
use hos_tla_contracts.Registry.Reclaim.{reclaim_finalize, reclaim_sweep_ft}
use hos_tla_contracts.Registry.Sales.{clear_settling, listing_settling, offer_settling}
use hos_tla_contracts.Registry.State.{TlaRegistry, add_pending_refund}

-- A sale of the key is settling: its listing or its accepted offer is locked.
abbrev pub IsLocked : Text → TlaRegistry → Type 0
IsLocked key s = (listing_settling key s ≡ true) ⊎ (offer_settling key s ≡ true)

-- The calls of a user that touch one sub-account's sale.
pub data SaleCall : Type 0 where
  list : (price : ℕ) (owner_key : PublicKey) → SaleCall
  unlist : SaleCall
  accept : (buyer : Text) (price : ℕ) (owner_key : PublicKey) → SaleCall
  revoke : SaleCall
  buy : (new_owner_key : PublicKey) → SaleCall
  buy_paid : (buyer : Text) (new_owner_key : PublicKey) → SaleCall
  set_wallet : (new_wallet : Text) → SaleCall
  sweep_token : (ft : Text) (tx_nonce : ℕ) (block_hash : Text) → SaleCall
  park : SaleCall

-- Whether the call would go through.
unfoldable pub passes : Host → Text → Text → SaleCall → TlaRegistry → Bool
passes env tla_id name (list price key) s = is_ok (list_sub_account env tla_id name price key s)
passes env tla_id name unlist s = is_ok (unlist_sub_account env tla_id name s)
passes env tla_id name (accept buyer price key) s =
    is_ok (accept_offer env tla_id name buyer price key s)
passes env tla_id name revoke s = is_ok (revoke_offer env tla_id name s)
passes env tla_id name (buy key) s = is_ok (buy_sub_account env tla_id name key s)
passes env tla_id name (buy_paid buyer key) s =
    is_ok (buy_sub_account_paid env tla_id name buyer key s)
passes env tla_id name (set_wallet wallet) s = is_ok (set_main_wallet env tla_id name wallet s)
passes env tla_id name (sweep_token ft nonce hash) s =
    is_ok (reclaim_sweep_ft env tla_id name ft nonce hash s)
passes env tla_id name park s = is_ok (reclaim_finalize env tla_id name s)

-- While the listing or the accepted offer of a sub-account is settling, each of these calls
-- fails: listing, unlisting, accepting or revoking an offer, buying or buying paid, changing the
-- wallet of record, sweeping a token and parking.
pub locked_refuses :
    (env : Host) (tla_id name : Text) (c : SaleCall) (s : TlaRegistry)
    → IsLocked (sub_account_key tla_id name) s
    → passes env tla_id name c s ≡ false
unfolding passes list_sub_account unlist_sub_account accept_offer revoke_offer buy_sub_account
    buy_sub_account_paid set_main_wallet reclaim_sweep_ft reclaim_finalize
locked_refuses env tla_id name (list price key) s h = ground arith
locked_refuses env tla_id name unlist s h = ground arith
locked_refuses env tla_id name (accept buyer price key) s h = ground arith
locked_refuses env tla_id name revoke s h = ground arith
locked_refuses env tla_id name (buy key) s h = ground arith
locked_refuses env tla_id name (buy_paid buyer key) s h = ground arith
locked_refuses env tla_id name (set_wallet wallet) s h = ground arith
locked_refuses env tla_id name (sweep_token ft nonce hash) s h = ground arith
locked_refuses env tla_id name park s h = ground arith

abbrev pub IsIdle : Text → TlaRegistry → Type 0
IsIdle key s = (listing_settling key s ≡ false) × (offer_settling key s ≡ false)

pub clear_settling-IsIdle : (key : Text) (s : TlaRegistry) → IsIdle key (clear_settling key s)
unfolding clear_settling
clear_settling-IsIdle key s = elim (Option-cases (lookup key s.listings)) [
  | inl unlisted ↦ elim (Option-cases (lookup key s.accepted_offers)) [
    | inl no_offer ↦ ground arith
    | inr (o, offered) ↦ ground (
      arith,
      text_eq_refl key,
      lookup-insert key key (record o { settling = false }) s.accepted_offers,
    )
  ]
  | inr (l, listed) ↦ elim (Option-cases (lookup key s.accepted_offers)) [
    | inl no_offer ↦
        ground (
          arith,
          text_eq_refl key,
          lookup-insert key key (record l { settling = false }) s.listings,
        )
    | inr (o, offered) ↦ ground (
      arith,
      text_eq_refl key,
      lookup-insert key key (record l { settling = false }) s.listings,
      lookup-insert key key (record o { settling = false }) s.accepted_offers,
    )
  ]
]

pub hand_over-IsIdle :
    (key owner main_wallet : Text) (s : TlaRegistry)
    → IsIdle key (hand_over key owner main_wallet s)
unfolding hand_over
hand_over-IsIdle key owner main_wallet s = ground (
  arith,
  text_eq_refl key,
  lookup-remove key key s.listings,
  lookup-remove key key s.accepted_offers,
)

sold-IsIdle :
    (swapped : Option Bool) (tla_id name buyer : Text) (price deposit : ℕ) (s : TlaRegistry)
    → IsIdle
        (sub_account_key tla_id name)
        (sub_account_sold swapped tla_id name buyer price deposit s)
unfolding sub_account_sold
sold-IsIdle none tla_id name buyer price deposit s =
    clear_settling-IsIdle (sub_account_key tla_id name) (add_pending_refund buyer deposit s)
sold-IsIdle (some false) tla_id name buyer price deposit s =
    clear_settling-IsIdle (sub_account_key tla_id name) (add_pending_refund buyer deposit s)
sold-IsIdle (some true) tla_id name buyer price deposit s =
    let key = sub_account_key tla_id name in
    elim (Option-cases (lookup key s.sub_accounts)) [
      | inl gone ↦ rw gone (clear_settling-IsIdle key (add_pending_refund buyer deposit s))
      | inr (sub, found) ↦
          rw found (hand_over-IsIdle key buyer buyer (settle_books sub buyer price deposit s))
    ]

sold_paid-IsIdle :
    (swapped : Option Bool) (tla_id name buyer operator : Text) (s : TlaRegistry)
    → IsIdle
        (sub_account_key tla_id name)
        (sub_account_sold_paid swapped tla_id name buyer operator s)
unfolding sub_account_sold_paid
sold_paid-IsIdle none tla_id name buyer operator s =
    clear_settling-IsIdle (sub_account_key tla_id name) s
sold_paid-IsIdle (some false) tla_id name buyer operator s =
    clear_settling-IsIdle (sub_account_key tla_id name) s
sold_paid-IsIdle (some true) tla_id name buyer operator s =
    let key = sub_account_key tla_id name in
    elim (Option-cases (lookup key s.sub_accounts)) [
      | inl gone ↦ rw gone (clear_settling-IsIdle key s)
      | inr (sub, found) ↦ rw found (hand_over-IsIdle key operator buyer s)
    ]

blocked_sale-IsIdle :
    (env : Host) (p : PendingBuy) (allowlist : List Text) (s : TlaRegistry)
    → (buy_balances_checked env p allowlist s).1 ≡ none
    → IsIdle (sub_account_key p.tla_id p.name) (buy_balances_checked env p allowlist s).0
unfolding buy_balances_checked
blocked_sale-IsIdle env p allowlist s h = gate (ft_balances_clear env allowlist) refl
  where
    key : Text
    key = sub_account_key p.tla_id p.name

    gate :
        (g : BalanceGate)
        → ft_balances_clear env allowlist ≡ g
        → IsIdle key (buy_balances_checked env p allowlist s).0
    gate clear e = absurd (cc)
    gate (blocked token reason) e =
        rw (e, buy_balances_checked)
          (clear_settling-IsIdle key (add_pending_refund p.buyer p.deposit s))

blocked_paid_sale-IsIdle :
    (env : Host) (p : PendingBuy) (allowlist : List Text) (operator : Text) (s : TlaRegistry)
    → (buy_paid_balances_checked env p allowlist operator s).1 ≡ none
    → IsIdle
        (sub_account_key p.tla_id p.name)
        (buy_paid_balances_checked env p allowlist operator s).0
unfolding buy_paid_balances_checked
blocked_paid_sale-IsIdle env p allowlist operator s h = gate (ft_balances_clear env allowlist) refl
  where
    key : Text
    key = sub_account_key p.tla_id p.name

    gate :
        (g : BalanceGate)
        → ft_balances_clear env allowlist ≡ g
        → IsIdle key (buy_paid_balances_checked env p allowlist operator s).0
    gate clear e = absurd (cc)
    gate (blocked token reason) e = rw (e, buy_paid_balances_checked) (clear_settling-IsIdle key s)

-- The state after each way in which a sale can end is idle: the callback of either purchase, and a
-- balance gate that stops either.
abbrev pub ReleasesLock : Host → Option Bool → PendingBuy → List Text → Text → TlaRegistry → Type 0
ReleasesLock env swapped p allowlist operator s =
    let key = sub_account_key p.tla_id p.name in
    IsIdle key (sub_account_sold swapped p.tla_id p.name p.buyer p.price p.deposit s)
    × IsIdle key (sub_account_sold_paid swapped p.tla_id p.name p.buyer operator s)
    × ((buy_balances_checked env p allowlist s).1 ≡ none
        → IsIdle key (buy_balances_checked env p allowlist s).0)
    × ((buy_paid_balances_checked env p allowlist operator s).1 ≡ none
        → IsIdle key (buy_paid_balances_checked env p allowlist operator s).0)

-- Every end of a sale leaves its sub-account idle: the callback of a purchase or of a paid
-- purchase, whatever the transfer's result and whether or not the sub-account still exists, and
-- the balance gate of either when it goes no further.
pub sale_ends_idle :
    (env : Host) (swapped : Option Bool) (p : PendingBuy) (allowlist : List Text) (operator : Text)
    (s : TlaRegistry)
    → ReleasesLock env swapped p allowlist operator s
sale_ends_idle env swapped p allowlist operator s = (
  sold-IsIdle swapped p.tla_id p.name p.buyer p.price p.deposit s,
  sold_paid-IsIdle swapped p.tla_id p.name p.buyer operator s,
  blocked_sale-IsIdle env p allowlist s,
  blocked_paid_sale-IsIdle env p allowlist operator s,
)
