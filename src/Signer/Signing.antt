-- ===== src/Signer/Signing.antt =====
-- contracts/active-signer/src/lib.rs: what a wallet's owner, and the marketplace, may have signed.
use hos_tla_contracts.Base.{
  Bool, List, Text, ensure, insert, length, lookup, none, ok, ok_or, reject, some, text_eq, ℕ, ◌==◌,
  ◌>>=◌, ◌>>◌,
}
use hos_tla_contracts.Common.Tx.{TxAction, build_transaction, to_hex}
use hos_tla_contracts.Host.{Host, PublicKey}
use hos_tla_contracts.Signer.Errors.{
  Answer, bad_message_nonce, bad_signature, no_actions, no_signer, nonce_rejected,
  one_yocto_required, only_marketplace, signer_mismatch, wallet_frozen, wrong_chain,
}
use hos_tla_contracts.Signer.Payloads.{
  SignRequest, mainnet, message_tag, payload, sign_payload, tx_tag, verify_tagged,
}
use hos_tla_contracts.Signer.Types.{
  ActiveSigner, MessageRequest, SignerEntry, SignerLib, TxMessage, is_unfrozen,
}

module _ {Nonces : Type 0} (lib : SignerLib Nonces) where
  -- The check of the proof is the caller's, a function of the owner's key.
  unfoldable pub authorize :
      Host
      → Text
      → ℕ
      → ℕ
      → ℕ
      → (Text → Bool)
      → ActiveSigner Nonces
      → Answer (ActiveSigner Nonces × PublicKey)
  unfolding is_unfrozen
  authorize env wallet nonce created_at_secs timeout_secs verify s = do
    entry ← ok_or (lookup wallet s.signers) no_signer
    ensure (is_unfrozen entry.frozen) wallet_frozen
    ensure (verify entry.public_key) bad_signature
    spent ←
        ok_or (lib.commit env.block_timestamp nonce created_at_secs timeout_secs entry.nonces)
          nonce_rejected
    let entry' : SignerEntry Nonces = record entry {
      nonces = spent;
      last_signed_at = env.block_timestamp;
    }
    ok (record s { signers = insert wallet entry' s.signers }, entry.mpc_public_key)

  unfoldable pub submit_signed_tx :
      Host
      → Text
      → TxMessage
      → Text
      → ℕ
      → Text
      → ActiveSigner Nonces
      → Answer (ActiveSigner Nonces × SignRequest)
  submit_signed_tx env wallet msg proof tx_nonce block_hash s = do
    ensure (env.attached_deposit == 1) one_yocto_required
    ensure (text_eq msg.chain_id mainnet) wrong_chain
    ensure (text_eq msg.signer_id wallet) signer_mismatch
    reject (length msg.actions == 0) no_actions
    signed ←
        authorize env wallet msg.nonce msg.created_at_secs msg.timeout_secs
          (λ key. verify_tagged lib tx_tag (lib.borsh_tx msg) key proof) s
    let bytes = build_transaction wallet signed.1 tx_nonce msg.receiver_id block_hash msg.actions
    ok (signed.0, sign_payload signed.0 wallet (lib.sha256 bytes) (some (to_hex bytes)))

  unfoldable pub submit_signed_message :
      Host
      → Text
      → MessageRequest
      → Text
      → ActiveSigner Nonces
      → Answer (ActiveSigner Nonces × SignRequest)
  submit_signed_message env wallet msg proof s = do
    ensure (env.attached_deposit == 1) one_yocto_required
    ensure (text_eq msg.chain_id mainnet) wrong_chain
    ensure (text_eq msg.signer_id wallet) signer_mismatch
    ensure (length msg.message_nonce == 32) bad_message_nonce
    signed ←
        authorize env wallet msg.nonce msg.created_at_secs msg.timeout_secs
          (λ key. verify_tagged lib message_tag (lib.borsh_message msg) key proof) s
    let bytes = payload msg.message msg.message_nonce msg.recipient msg.callback_url
    ok (signed.0, sign_payload signed.0 wallet (lib.sha256 bytes) none)

  unfoldable pub authority_sign_tx :
      Host
      → Text
      → Text
      → List TxAction
      → ℕ
      → Text
      → ActiveSigner Nonces
      → Answer (ActiveSigner Nonces × SignRequest)
  unfolding is_unfrozen
  authority_sign_tx env wallet receiver_id actions tx_nonce block_hash s = do
    ensure (env.attached_deposit == 1) one_yocto_required
    ensure (text_eq env.predecessor s.marketplace_authority) only_marketplace
    reject (length actions == 0) no_actions
    entry ← ok_or (lookup wallet s.signers) no_signer
    ensure (is_unfrozen entry.frozen) wallet_frozen
    let entry' : SignerEntry Nonces = record entry { last_signed_at = env.block_timestamp }
    let s' = record s { signers = insert wallet entry' s.signers }
    let bytes =
        build_transaction wallet entry.mpc_public_key tx_nonce receiver_id block_hash actions
    ok (s', sign_payload s' wallet (lib.sha256 bytes) (some (to_hex bytes)))
