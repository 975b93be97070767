-- ===== src/Manager/Types.antt =====
-- contracts/tla-manager/src/lib.rs: the state, the calls of other contracts, and the callbacks.
use hos_tla_contracts.Base.{Text, ℕ}
use hos_tla_contracts.Host.{PublicKey}

pub record TlaManager : Type 0 where
  pub registry : Text
  pub active_signer : Text
  pub mpc_signer : Text
  pub min_balance : ℕ

-- The calls of the MPC contract and of the signer, the batch that creates an account, and a transfer.
pub data ManagerCall : Type 0 where
  derived_public_key : (mpc_signer path predecessor : Text) (domain_id : ℕ) → ManagerCall
  create_account : (account : Text) (funding : ℕ) (full_access_key : PublicKey) → ManagerCall
  install_signer :
      (active_signer wallet public_key : Text) (mpc_public_key : PublicKey) → ManagerCall
  transfer_near : (to : Text) (amount : ℕ) → ManagerCall

-- The private methods, with the arguments that the manager binds when it makes the promise.
pub data ManagerCallback : Type 0 where
  on_key_derived : (account : Text) (owner_public_key : PublicKey) (funding : ℕ) → ManagerCallback
  on_wallet_created :
      (account : Text) (owner_public_key mpc_public_key : PublicKey) (funding : ℕ) → ManagerCallback
  on_signer_settled : (account : Text) → ManagerCallback
  on_creation_failed : ManagerCallback

-- A call with the callback that runs when it has ended.
abbrev pub Chained : Type 0
Chained = ManagerCall × ManagerCallback

-- The callback of a retry.
pub data RetryCallback : Type 0 where
  on_retry_key_derived : (account : Text) (owner_public_key : PublicKey) → RetryCallback
