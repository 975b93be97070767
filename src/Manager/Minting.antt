-- ===== src/Manager/Minting.antt =====
-- contracts/tla-manager/src/lib.rs: the mint of a sub-account and the retry of an install. The state is
-- set by `new` and never written. A promise's result is `none` or `false` for a `PromiseError`.
use hos_tla_contracts.Base.{
  Bool, Option, Text, [], ensure, false, if◌then◌else◌, leb, none, not, ok, ok_or, some, text_eq,
  true, ℕ, ◌&&◌, ◌++◌, ◌==◌, ◌>>=◌, ◌>>◌, ◌||◌, ◌∷◌,
}
use hos_tla_contracts.Common.Keys.{MintOutcome, ed25519_base58, is_ed25519}
use hos_tla_contracts.Common.Tx.{mpc_path}
use hos_tla_contracts.Host.{Host, PublicKey, parse_account}
use hos_tla_contracts.Manager.Errors.{
  Managed, derive_failed, insufficient_deposit, invalid_name, only_registry, owner_not_ed25519,
}
use hos_tla_contracts.Manager.Types.{
  Chained, ManagerCall, RetryCallback, TlaManager, create_account, derived_public_key,
  install_signer, on_creation_failed, on_key_derived, on_retry_key_derived, on_signer_settled,
  on_wallet_created, transfer_near,
}

unfoldable pub new : Text → Text → Text → ℕ → TlaManager
new registry active_signer mpc_signer min_balance = record {
  registry = registry;
  active_signer = active_signer;
  mpc_signer = mpc_signer;
  min_balance = min_balance;
}

-- `name.contains('.')`
unfoldable pub has_dot : Text → Bool
has_dot [] = false
has_dot (c ∷ name) = c == 46 || has_dot name

abbrev is_empty : Text → Bool
is_empty [] = true
is_empty (c ∷ name) = false

unfoldable pub derive_key : Text → TlaManager → ManagerCall
unfolding mpc_path
derive_key account s = derived_public_key s.mpc_signer (mpc_path account) s.active_signer 1

unfoldable pub refund_and_fail : ℕ → TlaManager → Chained
refund_and_fail funding s = (transfer_near s.registry funding, on_creation_failed)

-- `format!("{}.{}", name, env::current_account_id())`
unfoldable pub account_of : Text → Text → Text
account_of name manager = name ++ 46 ∷ manager

unfoldable pub create_sub_account : Host → Text → PublicKey → TlaManager → Managed Chained
unfolding has_dot is_ed25519 account_of derive_key
create_sub_account env name owner_public_key s = do
  ensure (text_eq env.predecessor s.registry) only_registry
  ensure (not (is_empty name) && not (has_dot name)) invalid_name
  ensure (is_ed25519 owner_public_key) owner_not_ed25519
  let funding = env.attached_deposit
  ensure (leb s.min_balance funding) insufficient_deposit
  account ← ok_or (parse_account env (account_of name env.current_account)) invalid_name
  ok (derive_key account s, on_key_derived account owner_public_key funding)

-- The derived key, if it is one of ed25519.
unfoldable pub usable_key : Option PublicKey → Option PublicKey
unfolding is_ed25519
usable_key none = none
usable_key (some key) = if is_ed25519 key then some key else none

unfoldable pub key_derived : Text → PublicKey → ℕ → Option PublicKey → TlaManager → Chained
unfolding usable_key refund_and_fail
key_derived account owner_public_key funding derived s = elim (usable_key derived) [
  | none ↦ refund_and_fail funding s
  | some mpc_public_key ↦ (
    create_account account funding mpc_public_key,
    on_wallet_created account owner_public_key mpc_public_key funding,
  )
]

-- `ed25519_base58_or_panic`
abbrev pub base58_or_panic : Host → PublicKey → Managed Text
base58_or_panic env key = ok_or (ed25519_base58 env key) owner_not_ed25519

unfoldable pub wallet_created :
    Host → Text → PublicKey → PublicKey → ℕ → Bool → TlaManager → Managed Chained
unfolding refund_and_fail
wallet_created env account owner_public_key mpc_public_key funding succeeded s =
    if not succeeded
    then ok (refund_and_fail funding s)
    else base58_or_panic env owner_public_key >>= λ key.
        ok (install_signer s.active_signer account key mpc_public_key, on_signer_settled account)

unfoldable pub signer_settled : Bool → MintOutcome
signer_settled succeeded = if succeeded then MintOutcome.active else MintOutcome.signer_pending

unfoldable pub creation_failed : MintOutcome
creation_failed = MintOutcome.creation_failed

unfoldable pub retry_install :
    Host → Text → PublicKey → TlaManager → Managed (ManagerCall × RetryCallback)
unfolding is_ed25519 derive_key
retry_install env account owner_public_key s = do
  ensure (text_eq env.predecessor s.registry) only_registry
  ensure (is_ed25519 owner_public_key) owner_not_ed25519
  ok (derive_key account s, on_retry_key_derived account owner_public_key)

unfoldable pub retry_key_derived :
    Host → Text → PublicKey → Option PublicKey → TlaManager → Managed ManagerCall
unfolding usable_key
retry_key_derived env account owner_public_key derived s = do
  mpc_public_key ← ok_or (usable_key derived) derive_failed
  key ← base58_or_panic env owner_public_key
  ok (install_signer s.active_signer account key mpc_public_key)
