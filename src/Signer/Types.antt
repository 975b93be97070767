-- ===== src/Signer/Types.antt =====
-- contracts/active-signer/src/state.rs and the records of lib.rs. Ed25519 keys and proofs are texts;
-- the replay window `Nonces` and the signature check are of the crate defuse_wallet.
use hos_tla_contracts.Base.{Bool, Dict, List, Option, Text, false, true, ℕ}
use hos_tla_contracts.Common.Tx.{TxAction}
use hos_tla_contracts.Host.{PublicKey}

pub data FreezeState : Type 0 where
  unfrozen self_frozen recovery_frozen : FreezeState

-- `frozen == FreezeState::Unfrozen`
unfoldable pub is_unfrozen : FreezeState → Bool
is_unfrozen unfrozen = true
is_unfrozen self_frozen = false
is_unfrozen recovery_frozen = false

-- `frozen == FreezeState::SelfFrozen`
unfoldable pub is_self_frozen : FreezeState → Bool
is_self_frozen unfrozen = false
is_self_frozen self_frozen = true
is_self_frozen recovery_frozen = false

pub record SignerEntry (Nonces : Type 0) : Type 0 where
  pub public_key : Text
  pub mpc_public_key : PublicKey
  pub nonces : Nonces
  pub freeze_nonces : Nonces
  pub last_signed_at : ℕ
  pub frozen : FreezeState

pub record FreezeMessage : Type 0 where
  pub chain_id : Text
  pub signer_id : Text
  pub nonce : ℕ
  pub created_at_secs : ℕ
  pub timeout_secs : ℕ

pub record TxMessage : Type 0 where
  pub chain_id : Text
  pub signer_id : Text
  pub nonce : ℕ
  pub created_at_secs : ℕ
  pub timeout_secs : ℕ
  pub receiver_id : Text
  pub actions : List TxAction

pub record MessageRequest : Type 0 where
  pub chain_id : Text
  pub signer_id : Text
  pub nonce : ℕ
  pub created_at_secs : ℕ
  pub timeout_secs : ℕ
  pub message : Text
  pub recipient : Text
  pub message_nonce : Text
  pub callback_url : Option Text

-- What the signer calls of defuse_wallet, of borsh and of the host.
pub record SignerLib (Nonces : Type 0) : Type 0 where
  -- `Ed25519PublicKey::from_str`
  pub parse_ed25519 : Text → Option Text
  -- `Sha256<Ed25519>::verify`
  pub verify_sha256 : (msg public_key proof : Text) → Bool
  -- `borsh::to_vec`
  pub borsh_freeze : FreezeMessage → Text
  pub borsh_tx : TxMessage → Text
  pub borsh_message : MessageRequest → Text
  -- `env::sha256`
  pub sha256 : Text → Text
  -- `Nonces::new`
  pub fresh_nonces : (timeout_secs : ℕ) → Nonces
  -- `Nonces::commit` at the block's time; `none` is its error.
  pub commit : (now nonce created_at_secs timeout_secs : ℕ) → Nonces → Option Nonces

pub record ActiveSigner (Nonces : Type 0) : Type 0 where
  pub admins : List Text
  pub minters : List Text
  pub marketplace_authority : Text
  pub recovery_authority : Text
  pub mpc_signer : Text
  pub timeout_secs : ℕ
  pub signers : Dict (SignerEntry Nonces)
