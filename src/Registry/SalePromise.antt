-- ===== src/Registry/SalePromise.antt =====
-- The promise of a purchase: the balance gate, the transfer and the settlement (marketplace.rs).
use hos_tla_contracts.Base.{
  List, Text, [], ap, arith, inl, inr, map, none, refl, some, ℕ, ◌∷◌, ◌≡◌, ◌≢◌, ◌⊎◌,
}
use hos_tla_contracts.Host.{Host, PublicKey}
use hos_tla_contracts.Registry.AssetGate.{
  BalanceGate, balance_calls, blocked, clear, ft_balance_fanout, ft_balances_clear,
}
use hos_tla_contracts.Registry.Buying.{buy_balances_checked, buy_promise, settle_transfer}
use hos_tla_contracts.Registry.Promises.{
  PendingBuy, Promise, PromiseOrValue, force_transfer, ft_balance_of, on_buy_balances_checked,
  on_sub_account_sold,
}
use hos_tla_contracts.Registry.State.{TlaRegistry}

-- The transfer of a sale, which the signer makes only for the bound key, and its settlement at a price.
abbrev pub sale_transfer :
    Text → Text → Text → Text → PublicKey → PublicKey → Text → ℕ → ℕ → Promise
sale_transfer extension key tla_id name new_owner_key bound_key buyer price deposit = record {
  calls = force_transfer extension key new_owner_key (some bound_key) ∷ [];
  callback = some (on_sub_account_sold tla_id name buyer price deposit);
}

-- What a balance gate answers with: the transfer where it is clear, and nothing else.
abbrev pub GoesOn : Host → List Text → Promise → PromiseOrValue → Type 0
GoesOn gate allowlist sends answer =
    ((ft_balances_clear gate allowlist ≡ clear) × (answer ≡ some sends))
    ⊎ ((ft_balances_clear gate allowlist ≢ clear) × (answer ≡ none))

-- The promise of a purchase: the transfer at once where no token is to be asked, and else every
-- allowed token's balance of the sub-account, with a gate whose answer at a later call is the transfer.
abbrev pub AsksFor : Host → TlaRegistry → TlaRegistry → Text → (Text → Promise) → Promise → Type 0
AsksFor gate later s key sends p =
    ((s.ft_allowlist ≡ []) × (p ≡ sends s.hos_extension))
    ⊎ ((s.ft_allowlist ≢ [])
        × (p.calls ≡ map (λ ft. ft_balance_of ft key) s.ft_allowlist)
        × ((pending : PendingBuy) × (p.callback
              ≡ some (on_buy_balances_checked pending s.ft_allowlist))
            × GoesOn gate s.ft_allowlist (sends later.hos_extension)
                (buy_balances_checked gate pending s.ft_allowlist later).1))

balance_calls_lem :
    (key : Text) (tokens : List Text)
    → balance_calls key tokens ≡ map (λ ft. ft_balance_of ft key) tokens
balance_calls_lem key [] = refl
balance_calls_lem key (ft ∷ rest) =
    ap (λ calls. ft_balance_of ft key ∷ calls) (balance_calls_lem key rest)

gate-GoesOn :
    (gate : Host) (allowlist : List Text) (pending : PendingBuy) (later : TlaRegistry)
    → GoesOn gate allowlist
        (sale_transfer later.hos_extension pending.sub_account pending.tla_id pending.name
          pending.new_owner_key pending.owner_key pending.buyer pending.price pending.deposit)
        (buy_balances_checked gate pending allowlist later).1
unfolding buy_balances_checked settle_transfer
gate-GoesOn gate allowlist pending later = go (ft_balances_clear gate allowlist) refl
  where
    go :
        (answer : BalanceGate)
        → ft_balances_clear gate allowlist ≡ answer
        → GoesOn gate allowlist
            (sale_transfer later.hos_extension pending.sub_account pending.tla_id pending.name
              pending.new_owner_key pending.owner_key pending.buyer pending.price pending.deposit)
            (buy_balances_checked gate pending allowlist later).1
    go clear e = inl (e, ground arith)
    go (blocked token reason) e = inr (λ same. cc, ground arith)

pub promise-AsksFor :
    (gate : Host) (later s : TlaRegistry) (pending : PendingBuy) (allowlist : List Text)
    → s.ft_allowlist ≡ allowlist
    → AsksFor gate later s pending.sub_account
        (λ extension.
          sale_transfer extension pending.sub_account pending.tla_id pending.name
            pending.new_owner_key pending.owner_key pending.buyer pending.price pending.deposit)
        (buy_promise s pending)
unfolding buy_promise ft_balance_fanout settle_transfer
promise-AsksFor gate later s pending [] e = inl (e, ground arith)
promise-AsksFor gate later s pending (ft ∷ rest) e = inr (
  λ same. cc,
  ground (arith, balance_calls_lem pending.sub_account rest),
  (pending, ground arith, gate-GoesOn gate s.ft_allowlist pending later),
)
