-- ===== src/Signer/System.antt =====
-- contracts/active-signer/src/lib.rs as a system: the public methods, in any order.
use hos_tla_contracts.Signer.Owners
use hos_tla_contracts.Signer.Signing
use hos_tla_contracts.Base.{
  List, Option, Text, codes, err, false, ok, some, true, ℕ, ◌++◌, ◌≡◌, ◌⊎◌,
}
use hos_tla_contracts.Common.Tx.{TxAction}
use hos_tla_contracts.Host.{Host, PublicKey}
use hos_tla_contracts.Signer.Errors.{Answer}
use hos_tla_contracts.Signer.Types.{
  ActiveSigner, FreezeMessage, MessageRequest, SignerEntry, SignerLib, TxMessage, is_self_frozen,
  is_unfrozen, recovery_frozen, self_frozen, unfrozen,
}

-- The public methods that change state, with their arguments.
pub data SignerMethod : Type 0 where
  add_minter remove_minter add_admin remove_admin : (account : Text) → SignerMethod
  install_signer : (wallet public_key : Text) (mpc_public_key : PublicKey) → SignerMethod
  submit_signed_tx :
      (wallet : Text) (msg : TxMessage) (proof : Text) (tx_nonce : ℕ) (block_hash : Text)
      → SignerMethod
  submit_signed_message : (wallet : Text) (msg : MessageRequest) (proof : Text) → SignerMethod
  authority_sign_tx :
      (wallet receiver_id : Text) (actions : List TxAction) (tx_nonce : ℕ) (block_hash : Text)
      → SignerMethod
  swap_owner : (wallet new_public_key : Text) (expected_current : Option Text) → SignerMethod
  self_freeze : (wallet : Text) (msg : FreezeMessage) (proof : Text) → SignerMethod
  freeze : (wallet : Text) (expected_current : Option Text) → SignerMethod
  unfreeze : (wallet : Text) → SignerMethod

module _ {Nonces : Type 0} where
  -- The state that a call leaves, its result aside.
  abbrev pub left_by :
      {R : Type 0} → Answer (ActiveSigner Nonces × R) → Answer (ActiveSigner Nonces)
  left_by (ok (s, r)) = ok s
  left_by (err e) = err e

  unfoldable pub run :
      SignerLib Nonces → Host → SignerMethod → ActiveSigner Nonces → Answer (ActiveSigner Nonces)
  run lib env (SignerMethod.add_minter a) s = Owners.add_minter env a s
  run lib env (SignerMethod.remove_minter a) s = Owners.remove_minter env a s
  run lib env (SignerMethod.add_admin a) s = Owners.add_admin env a s
  run lib env (SignerMethod.remove_admin a) s = Owners.remove_admin env a s
  run lib env (SignerMethod.install_signer w key mpc) s = Owners.install_signer lib env w key mpc s
  run lib env (SignerMethod.submit_signed_tx w msg proof n hash) s =
      left_by (Signing.submit_signed_tx lib env w msg proof n hash s)
  run lib env (SignerMethod.submit_signed_message w msg proof) s =
      left_by (Signing.submit_signed_message lib env w msg proof s)
  run lib env (SignerMethod.authority_sign_tx w to actions n hash) s =
      left_by (Signing.authority_sign_tx lib env w to actions n hash s)
  run lib env (SignerMethod.swap_owner w key expected) s =
      left_by (Owners.swap_owner lib env w key expected s)
  run lib env (SignerMethod.self_freeze w msg proof) s = Owners.self_freeze lib env w msg proof s
  run lib env (SignerMethod.freeze w expected) s = Owners.freeze lib env w expected s
  run lib env (SignerMethod.unfreeze w) s = Owners.unfreeze lib env w s

-- The replay numbers of a message that a method carries for a wallet.
pub data Carries : SignerMethod → Text → ℕ → ℕ → ℕ → Type 0 where
  carries_tx :
      (w : Text) (msg : TxMessage) (proof : Text) (n : ℕ) (hash : Text)
      → Carries
          (SignerMethod.submit_signed_tx w msg proof n hash)
          w
          msg.nonce
          msg.created_at_secs
          msg.timeout_secs
  carries_message :
      (w : Text) (msg : MessageRequest) (proof : Text)
      → Carries
          (SignerMethod.submit_signed_message w msg proof)
          w
          msg.nonce
          msg.created_at_secs
          msg.timeout_secs

-- A request whose signature verifies, under the key and over the bytes of the request with its domain
-- in front.
pub data IsSigned {Nonces : Type 0} (lib : SignerLib Nonces) (key : Text)
    : SignerMethod → Type 0 where
  signed_tx :
      (w : Text) (msg : TxMessage) (proof : Text) (n : ℕ) (hash : Text)
      → lib.verify_sha256 (codes "NEAR_HOS_ACTIVE_SIGNER_TX/V1" ++ lib.borsh_tx msg) key proof
        ≡ true
      → IsSigned lib key (SignerMethod.submit_signed_tx w msg proof n hash)
  signed_message :
      (w : Text) (msg : MessageRequest) (proof : Text)
      → lib.verify_sha256 (codes "NEAR_HOS_ACTIVE_SIGNER_MSG/V1" ++ lib.borsh_message msg) key proof
        ≡ true
      → IsSigned lib key (SignerMethod.submit_signed_message w msg proof)

-- A swap of the wallet's owner.
pub data Swaps : SignerMethod → Text → Type 0 where
  swaps : (w key : Text) (expected : Option Text) → Swaps (SignerMethod.swap_owner w key expected) w

-- What one call may do to the entry of a wallet.
pub data EntryChange {Nonces : Type 0} (lib : SignerLib Nonces) (env : Host) (m : SignerMethod)
    (s : ActiveSigner Nonces) (w : Text) (e : SignerEntry Nonces)
    : SignerEntry Nonces → Type 0 where
  kept : EntryChange lib env m s w e e
  signs :
      (n created timeout : ℕ) (spent : Nonces)
      → Carries m w n created timeout
      → IsSigned lib e.public_key m
      → is_unfrozen e.frozen ≡ true
      → lib.commit env.block_timestamp n created timeout e.nonces ≡ some spent
      → EntryChange lib env m s w e
          (record e { nonces = spent; last_signed_at = env.block_timestamp })
  signs_for_market :
      (to : Text) (actions : List TxAction) (n : ℕ) (hash : Text)
      → m ≡ SignerMethod.authority_sign_tx w to actions n hash
      → env.predecessor ≡ s.marketplace_authority
      → is_unfrozen e.frozen ≡ true
      → EntryChange lib env m s w e (record e { last_signed_at = env.block_timestamp })
  changes_owner :
      (text key : Text) (expected : Option Text)
      → m ≡ SignerMethod.swap_owner w text expected
      → lib.parse_ed25519 text ≡ some key
      → ((env.predecessor ≡ s.marketplace_authority) × (is_unfrozen e.frozen ≡ true))
        ⊎ ((env.predecessor ≡ s.recovery_authority) × (is_unfrozen e.frozen ≡ false))
      → EntryChange lib env m s w e (record e {
        frozen = unfrozen;
        public_key = key;
        nonces = lib.fresh_nonces s.timeout_secs;
        freeze_nonces = lib.fresh_nonces s.timeout_secs;
      })
  freezes_itself :
      (msg : FreezeMessage) (proof : Text) (spent : Nonces)
      → m ≡ SignerMethod.self_freeze w msg proof
      → msg.chain_id ≡ codes "mainnet"
      → msg.signer_id ≡ w
      → lib.verify_sha256
          (codes "NEAR_HOS_ACTIVE_SIGNER_FREEZE/V1" ++ lib.borsh_freeze msg)
          e.public_key
          proof
        ≡ true
      → lib.commit env.block_timestamp msg.nonce msg.created_at_secs msg.timeout_secs
          e.freeze_nonces
        ≡ some spent
      → EntryChange lib env m s w e (record e { freeze_nonces = spent; frozen = self_frozen })
  is_frozen_for_recovery :
      (expected : Option Text)
      → m ≡ SignerMethod.freeze w expected
      → env.predecessor ≡ s.recovery_authority
      → is_self_frozen e.frozen ≡ false
      → EntryChange lib env m s w e (record e { frozen = recovery_frozen })
  thaws :
      m ≡ SignerMethod.unfreeze w
      → env.predecessor ≡ s.recovery_authority
      → is_self_frozen e.frozen ≡ false
      → EntryChange lib env m s w e (record e { frozen = unfrozen })
