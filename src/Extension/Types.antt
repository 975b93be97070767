-- ===== src/Extension/Types.antt =====
-- contracts/hos-extension/src/lib.rs: the state, the calls of other contracts, and the callbacks.
use hos_tla_contracts.Base.{Bool, List, Option, Text, ℕ, ◌+◌}
use hos_tla_contracts.Common.Keys.{ft_storage_deposit_yocto}
use hos_tla_contracts.Common.Tx.{TxAction}

pub record HosExtension : Type 0 where
  pub admins : List Text
  pub registry : Text
  pub active_signer : Text
  pub recovery : Text
  pub paused : Bool
  pub version : ℕ

abbrev pub contract_version : ℕ
contract_version = 1

abbrev pub min_sweep_attached : ℕ
min_sweep_attached = ft_storage_deposit_yocto + 1

abbrev pub one_yocto : ℕ
one_yocto = 1

-- The calls of the signer, of the recovery and of a token contract, and a transfer. Those that carry a
-- deposit name it first.
pub data ExtensionCall : Type 0 where
  swap_owner :
      (active_signer wallet new_public_key : Text) (expected_current : Option Text) → ExtensionCall
  authority_sign_tx :
      (deposit : ℕ) (active_signer wallet receiver_id : Text) (actions : List TxAction)
      (tx_nonce : ℕ) (block_hash : Text)
      → ExtensionCall
  on_wallet_transferred : (recovery wallet : Text) → ExtensionCall
  ft_balance_of : (ft account_id : Text) → ExtensionCall
  storage_deposit : (deposit : ℕ) (ft account_id : Text) (registration_only : Bool) → ExtensionCall
  transfer_near : (to : Text) (amount : ℕ) → ExtensionCall

pub data ExtensionCallback : Type 0 where
  after_force_swap : (wallet : Text) → ExtensionCallback
  after_balance_for_sweep :
      (wallet ft destination : Text) (tx_nonce : ℕ) (block_hash : Text) → ExtensionCallback
  after_storage_for_sweep :
      (wallet ft destination : Text) (balance tx_nonce : ℕ) (block_hash : Text) → ExtensionCallback
  after_sweep_settled : (wallet ft destination : Text) (amount : ℕ) → ExtensionCallback
