-- ===== src/Registry/Promises.antt =====
-- The promises that the registry creates: calls of other contracts, and the callback that follows.
-- Gas is not modelled: the amounts are constants that no branch reads.
use hos_tla_contracts.Base.{List, Option, Text, some, ℕ}
use hos_tla_contracts.Host.{PublicKey}

-- contracts/tla-registry/src/interfaces.rs, and a plain transfer.
pub data Remote : Type 0 where
  transfer : (to : Text) (amount : ℕ) → Remote
  create_sub_account :
      (manager : Text) (deposit : ℕ) (name : Text) (owner_public_key : PublicKey) → Remote
  retry_install : (manager account : Text) (owner_public_key : PublicKey) → Remote
  force_transfer :
      (extension wallet : Text) (new_public_key : PublicKey) (expected_current : Option PublicKey)
      → Remote
  sweep_ft :
      (extension : Text) (deposit : ℕ) (wallet ft destination : Text) (tx_nonce : ℕ)
      (block_hash : Text)
      → Remote
  signer_of : (signer wallet : Text) → Remote
  ft_balance_of : (ft account_id : Text) → Remote

-- `PendingReRent` in rental.rs
pub record PendingReRent : Type 0 where
  pub tla_id : Text
  pub name : Text
  pub payer : Text
  pub owner_key : PublicKey
  pub rent : ℕ
  pub attached : ℕ
  pub sub_account : Text

-- `PendingBuy` in marketplace.rs
pub record PendingBuy : Type 0 where
  pub tla_id : Text
  pub name : Text
  pub buyer : Text
  pub new_owner_key : PublicKey
  pub price : ℕ
  pub deposit : ℕ
  pub owner_key : PublicKey
  pub sub_account : Text

-- The private methods, with the arguments that the registry binds when it makes the promise.
pub data Callback : Type 0 where
  on_claim_refund_settled : (caller : Text) (amount : ℕ) → Callback
  on_sub_account_created :
      (tla_id name payer : Text) (owner_key : PublicKey) (rent attached : ℕ) → Callback
  on_sub_account_created_paid :
      (tla_id name payer : Text) (owner_key : PublicKey) (rent attached : ℕ) → Callback
  on_sub_account_re_rented : (tla_id name payer : Text) (rent attached : ℕ) → Callback
  on_re_rent_balances_checked : PendingReRent → (allowlist : List Text) → Callback
  on_retry_signer_settled : (key : Text) → Callback
  on_listing_verified :
      (tla_id name : Text) (price : ℕ) (owner_key : PublicKey) (seller : Text) → Callback
  on_offer_verified :
      (tla_id name buyer : Text) (price : ℕ) (owner_key : PublicKey) (seller : Text) → Callback
  on_buy_balances_checked : PendingBuy → (allowlist : List Text) → Callback
  on_buy_paid_balances_checked : PendingBuy → (allowlist : List Text) (operator : Text) → Callback
  on_sub_account_sold : (tla_id name buyer : Text) (price deposit : ℕ) → Callback
  on_sub_account_sold_paid : (tla_id name buyer operator : Text) (price : ℕ) → Callback
  on_balances_checked : (tla_id name destination : Text) (allowlist : List Text) → Callback
  on_reclaim_finalized : (tla_id name destination : Text) → Callback

-- Joined calls, and the callback that runs when all of them have ended.
pub record Promise : Type 0 where
  pub calls : List Remote
  pub callback : Option Callback

abbrev pub then_call : List Remote → Callback → Promise
then_call calls callback = record { calls = calls; callback = some callback }

-- `PromiseOrValue<()>`: no promise is the plain value.
abbrev pub PromiseOrValue : Type 0
PromiseOrValue = Option Promise
