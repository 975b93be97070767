-- ===== src/Registry/Buying.antt =====
-- contracts/tla-registry/src/marketplace.rs: the purchase and its settlement.
use hos_tla_contracts.Base.{
  Bool, List, Option, Text, [], ensure, false, if◌then◌else◌, lookup, modify, none, not, ok, ok_or,
  remove, sat_add, some, u128_max, ℕ, ◌>>=◌, ◌>>◌, ◌∷◌,
}
use hos_tla_contracts.Common.Keys.{is_ed25519}
use hos_tla_contracts.Host.{Host, PublicKey, parse_account}
use hos_tla_contracts.Registry.AssetGate.{blocked, clear, ft_balance_fanout, ft_balances_clear}
use hos_tla_contracts.Registry.Errors.{Reply, invalid_sub_account_id, not_ed25519}
use hos_tla_contracts.Registry.Fees.{split_resale}
use hos_tla_contracts.Registry.Names.{sub_account_key, validate_name}
use hos_tla_contracts.Registry.Promises.{
  PendingBuy, Promise, PromiseOrValue, force_transfer, on_buy_balances_checked,
  on_buy_paid_balances_checked, on_sub_account_sold, on_sub_account_sold_paid, then_call,
}
use hos_tla_contracts.Registry.Sales.{
  assert_sale_idle, assert_sellable, clear_settling, resolve_and_lock_paid_sale,
  resolve_and_lock_sale,
}
use hos_tla_contracts.Registry.State.{
  TlaRegistry, add_pending_refund, assert_not_paused, assert_payment_authority, refund_excess,
}
use hos_tla_contracts.Registry.Types.{SubAccountEntry}

unfoldable pub settle_transfer : Text → PendingBuy → Promise
settle_transfer hos_extension p =
    then_call (force_transfer hos_extension p.sub_account p.new_owner_key (some p.owner_key) ∷ [])
      (on_sub_account_sold p.tla_id p.name p.buyer p.price p.deposit)

unfoldable pub settle_transfer_paid : Text → PendingBuy → Text → Promise
settle_transfer_paid hos_extension p operator =
    then_call (force_transfer hos_extension p.sub_account p.new_owner_key (some p.owner_key) ∷ [])
      (on_sub_account_sold_paid p.tla_id p.name p.buyer operator p.price)

-- The promise of a purchase: the asset gate first, unless the allowlist is empty.
unfoldable pub buy_promise : TlaRegistry → PendingBuy → Promise
unfolding ft_balance_fanout settle_transfer
buy_promise s p = elim (ft_balance_fanout s.ft_allowlist p.sub_account) [
  | none ↦ settle_transfer s.hos_extension p
  | some chain ↦ then_call chain (on_buy_balances_checked p s.ft_allowlist)
]

unfoldable pub buy_paid_promise : TlaRegistry → PendingBuy → Text → Promise
unfolding ft_balance_fanout settle_transfer_paid
buy_paid_promise s p operator = elim (ft_balance_fanout s.ft_allowlist p.sub_account) [
  | none ↦ settle_transfer_paid s.hos_extension p operator
  | some chain ↦ then_call chain (on_buy_paid_balances_checked p s.ft_allowlist operator)
]

unfoldable pub buy_sub_account :
    Host → Text → Text → PublicKey → TlaRegistry → Reply (TlaRegistry × Promise)
unfolding assert_not_paused is_ed25519 assert_sale_idle
buy_sub_account env tla_id name new_owner_key s = do
  assert_not_paused s
  validate_name name
  ensure (is_ed25519 new_owner_key) not_ed25519
  let key = sub_account_key tla_id name
  assert_sale_idle key s
  assert_sellable env key tla_id s
  let buyer = env.predecessor
  let deposit = env.attached_deposit
  terms ← resolve_and_lock_sale key buyer deposit s
  sub_account ← ok_or (parse_account env key) invalid_sub_account_id
  let settlement : PendingBuy = record {
    tla_id = tla_id;
    name = name;
    buyer = buyer;
    new_owner_key = new_owner_key;
    price = terms.1;
    deposit = deposit;
    owner_key = terms.2;
    sub_account = sub_account;
  }
  ok (terms.0, buy_promise terms.0 settlement)

unfoldable pub buy_sub_account_paid :
    Host → Text → Text → Text → PublicKey → TlaRegistry → Reply (TlaRegistry × Promise)
unfolding assert_not_paused assert_payment_authority is_ed25519 assert_sale_idle
buy_sub_account_paid env tla_id name buyer new_owner_key s = do
  assert_not_paused s
  operator ← assert_payment_authority env s
  validate_name name
  ensure (is_ed25519 new_owner_key) not_ed25519
  let key = sub_account_key tla_id name
  assert_sale_idle key s
  assert_sellable env key tla_id s
  terms ← resolve_and_lock_paid_sale key buyer s
  sub_account ← ok_or (parse_account env key) invalid_sub_account_id
  let settlement : PendingBuy = record {
    tla_id = tla_id;
    name = name;
    buyer = buyer;
    new_owner_key = new_owner_key;
    price = terms.1;
    deposit = 0;
    owner_key = terms.2;
    sub_account = sub_account;
  }
  ok (terms.0, buy_paid_promise terms.0 settlement operator)

-- The new owner and wallet of record, with the listing and the offer gone.
unfoldable pub hand_over : Text → Text → Text → TlaRegistry → TlaRegistry
hand_over key owner main_wallet s = record s {
  sub_accounts =
      modify key (λ sub. record sub { owner = owner; main_wallet = main_wallet }) s.sub_accounts;
  listings = remove key s.listings;
  accepted_offers = remove key s.accepted_offers;
}

-- The transfer's result, `none` for a `PromiseError`, is good only as `Ok(true)`.
abbrev pub is_swapped : Option Bool → Bool
is_swapped none = false
is_swapped (some swapped) = swapped

-- The commission is earned, the seller is owed the proceeds and the buyer what the deposit exceeds.
unfoldable pub settle_books : SubAccountEntry → Text → ℕ → ℕ → TlaRegistry → TlaRegistry
unfolding add_pending_refund split_resale refund_excess
settle_books sub buyer price deposit s =
    let (commission, seller_proceeds) = split_resale price s.fee_config.resale_commission_bps in
    let earned = record s { total_revenue = sat_add u128_max s.total_revenue commission } in
    let paid = add_pending_refund sub.owner seller_proceeds earned in
    refund_excess buyer deposit price paid

unfoldable pub sub_account_sold :
    Option Bool → Text → Text → Text → ℕ → ℕ → TlaRegistry → TlaRegistry
unfolding add_pending_refund clear_settling settle_books hand_over
sub_account_sold swapped tla_id name buyer price deposit s =
    let key = sub_account_key tla_id name in
    if not (is_swapped swapped)
    then clear_settling key (add_pending_refund buyer deposit s)
    else elim (lookup key s.sub_accounts) [
      | none ↦ clear_settling key (add_pending_refund buyer deposit s)
      | some sub ↦ hand_over key buyer buyer (settle_books sub buyer price deposit s)
    ]

unfoldable pub sub_account_sold_paid :
    Option Bool → Text → Text → Text → Text → TlaRegistry → TlaRegistry
unfolding clear_settling hand_over
sub_account_sold_paid swapped tla_id name buyer operator s =
    let key = sub_account_key tla_id name in
    if not (is_swapped swapped) then clear_settling key s else elim (lookup key s.sub_accounts) [
      | none ↦ clear_settling key s
      | some sub ↦ hand_over key operator buyer s
    ]

unfoldable pub abort_sale : Text → PendingBuy → TlaRegistry → TlaRegistry
unfolding add_pending_refund clear_settling
abort_sale key settlement s =
    clear_settling key (add_pending_refund settlement.buyer settlement.deposit s)

unfoldable pub buy_balances_checked :
    Host → PendingBuy → List Text → TlaRegistry → TlaRegistry × PromiseOrValue
unfolding ft_balances_clear abort_sale settle_transfer
buy_balances_checked env settlement allowlist s =
    let key = sub_account_key settlement.tla_id settlement.name in
    elim (ft_balances_clear env allowlist) [
      | blocked token reason ↦ (abort_sale key settlement s, none)
      | clear ↦ (s, some (settle_transfer s.hos_extension settlement))
    ]

unfoldable pub buy_paid_balances_checked :
    Host → PendingBuy → List Text → Text → TlaRegistry → TlaRegistry × PromiseOrValue
unfolding ft_balances_clear clear_settling settle_transfer_paid
buy_paid_balances_checked env settlement allowlist operator s =
    let key = sub_account_key settlement.tla_id settlement.name in
    elim (ft_balances_clear env allowlist) [
      | blocked token reason ↦ (clear_settling key s, none)
      | clear ↦ (s, some (settle_transfer_paid s.hos_extension settlement operator))
    ]
