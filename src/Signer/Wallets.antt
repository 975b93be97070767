-- ===== src/Signer/Wallets.antt =====
-- The life of one wallet: what a call may do to its entry.
use hos_tla_contracts.Signer.Owners
use hos_tla_contracts.Signer.Signing
use hos_tla_contracts.Base.{
  Bool, Bool-cases, List, Option-cases, Result-cases, Text, ap, arith, codes, inl, inr, insert,
  lookup, lookup-insert, ok, refl, some, text_eq, text_eq_iff, true, ℕ, ◌≡◌,
}
use hos_tla_contracts.Common.Tx.{TxAction}
use hos_tla_contracts.Host.{Host, PublicKey}
use hos_tla_contracts.Signer.Payloads.{message_tag, tx_tag, verify_tagged}
use hos_tla_contracts.Signer.System.{
  Carries, EntryChange, IsSigned, SignerMethod, freezes_itself, kept, left_by, signs,
  signs_for_market,
}
use hos_tla_contracts.Signer.Types.{
  ActiveSigner, FreezeMessage, MessageRequest, SignerEntry, SignerLib, TxMessage, is_unfrozen,
  self_frozen, unfrozen,
}

module _ {Nonces : Type 0} (lib : SignerLib Nonces) where
  -- Where a call leaves the wallet's entry.
  abbrev pub Evolves :
      Host
      → SignerMethod
      → Text
      → SignerEntry Nonces
      → ActiveSigner Nonces
      → ActiveSigner Nonces
      → Type 0
  Evolves env m w e s s' =
      (e' : SignerEntry Nonces) × (lookup w s'.signers ≡ some e') × EntryChange lib env m s w e e'

  -- A call that writes one entry, at its wallet.
  pub written-Evolves :
      (env : Host) (m : SignerMethod) (v w : Text) (e last_entry next_entry : SignerEntry Nonces)
      (s s' : ActiveSigner Nonces)
      → lookup w s.signers ≡ some e
      → lookup v s.signers ≡ some last_entry
      → s'.signers ≡ insert v next_entry s.signers
      → EntryChange lib env m s v last_entry next_entry
      → Evolves env m w e s s'
  written-Evolves env m v w e last_entry next_entry s s' found standing written change =
      let stored = lookup-insert v w next_entry s.signers in
      elim (Bool-cases (text_eq v w)) [
        | inl same ↦
            let v_is_w : v ≡ w = (text_eq_iff v w).0 same in
            let old_is_e : last_entry ≡ e = ground arith in
            (next_entry, ground (arith, stored), rw (← v_is_w, ← old_is_e) change)
        | inr differs ↦ (e, ground (arith, stored), kept)
      ]

  pub untouched-Evolves :
      (env : Host) (m : SignerMethod) (w : Text) (e : SignerEntry Nonces)
      (s s' : ActiveSigner Nonces)
      → lookup w s.signers ≡ some e
      → s'.signers ≡ s.signers
      → Evolves env m w e s s'
  untouched-Evolves env m w e s s' found same = (e, rw same found, kept)

  pub install-Evolves :
      (env : Host) (v key : Text) (mpc : PublicKey) (m : SignerMethod) (w : Text)
      (e : SignerEntry Nonces) (s s' : ActiveSigner Nonces)
      → Owners.install_signer lib env v key mpc s ≡ ok s'
      → lookup w s.signers ≡ some e
      → Evolves env m w e s s'
  unfolding Owners.install_signer
  install-Evolves env v key mpc m w e s s' h found = elim (Option-cases (lib.parse_ed25519 key)) [
    | inl bad ↦ ground arith
    | inr (k, parsed) ↦
        let fresh : SignerEntry Nonces = record {
          public_key = k;
          mpc_public_key = mpc;
          nonces = lib.fresh_nonces s.timeout_secs;
          freeze_nonces = lib.fresh_nonces s.timeout_secs;
          last_signed_at = 0;
          frozen = unfrozen;
        } in
        let stored = lookup-insert v w fresh s.signers in
        (e, ground (arith, stored, text_eq_iff v w), kept)
  ]

  -- An authorization that goes through.
  abbrev pub Authorized :
      Host
      → Text
      → ℕ
      → ℕ
      → ℕ
      → (Text → Bool)
      → ActiveSigner Nonces
      → ActiveSigner Nonces × PublicKey
      → Type 0
  Authorized env w n created timeout verify s r =
      (e : SignerEntry Nonces) × (spent : Nonces) × (lookup w s.signers ≡ some e)
      × (is_unfrozen e.frozen ≡ true)
      × (verify e.public_key ≡ true)
      × (lib.commit env.block_timestamp n created timeout e.nonces ≡ some spent)
      × (r.0 ≡ record s {
        signers =
            insert w (record e { nonces = spent; last_signed_at = env.block_timestamp }) s.signers;
      })
      × (r.1 ≡ e.mpc_public_key)

  pub authorize_inv :
      (env : Host) (w : Text) (n created timeout : ℕ) (verify : Text → Bool)
      (s : ActiveSigner Nonces) (r : ActiveSigner Nonces × PublicKey)
      → Signing.authorize lib env w n created timeout verify s ≡ ok r
      → Authorized env w n created timeout verify s r
  unfolding Signing.authorize
  authorize_inv env w n created timeout verify s r h = elim (Option-cases (lookup w s.signers)) [
    | inl unknown ↦ ground arith
    | inr (e, found) ↦
        elim (Option-cases (lib.commit env.block_timestamp n created timeout e.nonces)) [
          | inl refused ↦ ground arith
          | inr (spent, committed) ↦
              (e, spent, found, ground arith, ground arith, committed, ground arith, ground arith)
        ]
  ]

  pub authorized-Evolves :
      (env : Host) (m : SignerMethod) (v w : Text) (n created timeout : ℕ) (verify : Text → Bool)
      (e : SignerEntry Nonces) (s s' : ActiveSigner Nonces) (k : PublicKey)
      → Carries m v n created timeout
      → ((key : Text) → verify key ≡ true → IsSigned lib key m)
      → Signing.authorize lib env v n created timeout verify s ≡ ok (s', k)
      → lookup w s.signers ≡ some e
      → Evolves env m w e s s'
  authorized-Evolves env m v w n created timeout verify e s s' k carried signs_it h found =
      let (e0, spent, standing, thawed, verified, committed, written, key) =
        authorize_inv env v n created timeout verify s (s', k) h in
      written-Evolves env m v w e e0
        (record e0 { nonces = spent; last_signed_at = env.block_timestamp }) s s' found standing
        (ap (λ u. u.signers) written)
        (signs n created timeout spent carried (signs_it e0.public_key verified) thawed committed)

  -- A submission that goes through has the authorization that it asks for.
  pub submit_tx_inv :
      (env : Host) (v : Text) (msg : TxMessage) (proof : Text) (n : ℕ) (hash : Text)
      (s s' : ActiveSigner Nonces)
      → left_by (Signing.submit_signed_tx lib env v msg proof n hash s) ≡ ok s'
      → (k : PublicKey) × (Signing.authorize lib env v msg.nonce msg.created_at_secs
            msg.timeout_secs
            (λ key. verify_tagged lib tx_tag (lib.borsh_tx msg) key proof)
            s
          ≡ ok (s', k))
  unfolding Signing.submit_signed_tx
  submit_tx_inv env v msg proof n hash s s' h =
      elim (Result-cases (
        Signing.authorize lib env v msg.nonce msg.created_at_secs msg.timeout_secs
          (λ key. verify_tagged lib tx_tag (lib.borsh_tx msg) key proof) s)) [
            | inr (e, refused) ↦ ground arith
            | inl ((s'', k), signed) ↦ (k, ground arith)
          ]

  pub submit_message_inv :
      (env : Host) (v : Text) (msg : MessageRequest) (proof : Text) (s s' : ActiveSigner Nonces)
      → left_by (Signing.submit_signed_message lib env v msg proof s) ≡ ok s'
      → (k : PublicKey) × (Signing.authorize lib env v msg.nonce msg.created_at_secs
            msg.timeout_secs
            (λ key. verify_tagged lib message_tag (lib.borsh_message msg) key proof)
            s
          ≡ ok (s', k))
  unfolding Signing.submit_signed_message
  submit_message_inv env v msg proof s s' h =
      elim (Result-cases (
        Signing.authorize lib env v msg.nonce msg.created_at_secs msg.timeout_secs
          (λ key. verify_tagged lib message_tag (lib.borsh_message msg) key proof) s)) [
            | inr (e, refused) ↦ ground arith
            | inl ((s'', k), signed) ↦ (k, ground arith)
          ]

  pub authority-Evolves :
      (env : Host) (v to : Text) (actions : List TxAction) (n : ℕ) (hash : Text) (w : Text)
      (e : SignerEntry Nonces) (s s' : ActiveSigner Nonces)
      → left_by (Signing.authority_sign_tx lib env v to actions n hash s) ≡ ok s'
      → lookup w s.signers ≡ some e
      → Evolves env (SignerMethod.authority_sign_tx v to actions n hash) w e s s'
  unfolding Signing.authority_sign_tx
  authority-Evolves env v to actions n hash w e s s' h found =
      elim (Option-cases (lookup v s.signers)) [
        | inl unknown ↦ ground arith
        | inr (e0, standing) ↦
            written-Evolves env (SignerMethod.authority_sign_tx v to actions n hash) v w e e0
              (record e0 { last_signed_at = env.block_timestamp }) s s' found standing
              (ground arith)
              (signs_for_market to actions n hash refl
                ((text_eq_iff env.predecessor s.marketplace_authority).0 (ground arith))
                (ground arith))
      ]

  pub self_freeze-Evolves :
      (env : Host) (v : Text) (msg : FreezeMessage) (proof : Text) (w : Text)
      (e : SignerEntry Nonces) (s s' : ActiveSigner Nonces)
      → Owners.self_freeze lib env v msg proof s ≡ ok s'
      → lookup w s.signers ≡ some e
      → Evolves env (SignerMethod.self_freeze v msg proof) w e s s'
  unfolding Owners.self_freeze
  self_freeze-Evolves env v msg proof w e s s' h found = elim (Option-cases (lookup v s.signers)) [
    | inl unknown ↦ ground arith
    | inr (e0, standing) ↦
        elim (Option-cases (
          lib.commit env.block_timestamp msg.nonce msg.created_at_secs msg.timeout_secs
            e0.freeze_nonces)) [
              | inl refused ↦ ground arith
              | inr (spent, committed) ↦
                  written-Evolves env (SignerMethod.self_freeze v msg proof) v w e e0
                    (record e0 { freeze_nonces = spent; frozen = self_frozen }) s s' found standing
                    (ground arith)
                    (freezes_itself msg proof spent refl
                      ((text_eq_iff msg.chain_id (codes "mainnet")).0 (ground arith))
                      ((text_eq_iff msg.signer_id v).0 (ground arith)) (ground arith) committed)
            ]
  ]
