-- ===== src/Network/MintProof.antt =====
-- A mint ends, in one of three ways.
use hos_tla_contracts.Manager.Minting
use hos_tla_contracts.Signer.Owners
use hos_tla_contracts.Base.{
  Bool-cases, Option, Option-cases, Result-cases, Text, [], arith, codes, false, inl, inr, lookup,
  lookup-insert, none, ok, refl, some, strip_prefix, suc, text_eq_refl, true, ℕ, ◌++◌, ◌∙◌, ◌∷◌,
  ◌≡◌, ◌≤◌,
}
use hos_tla_contracts.Common.Keys.{MintOutcome, ed25519_base58, is_ed25519}
use hos_tla_contracts.Host.{Host, PublicKey}
use hos_tla_contracts.Manager.Types.{
  Chained, ManagerCall, ManagerCallback, TlaManager, create_account, on_creation_failed,
  on_key_derived, on_signer_settled, on_wallet_created,
}
use hos_tla_contracts.Network.Mints.{
  After, CallResult, MintEnv, MintWorld, done, finished, follow, goes, key, panicked, perform,
  resume,
}
use hos_tla_contracts.Signer.Types.{ActiveSigner, SignerEntry, SignerLib, unfrozen}

-- What near-sdk documents of the text of an ed25519 key: the name of the curve, a colon and base58.
abbrev pub PrintsKeys : Host → Type 0
PrintsKeys env =
    (k : PublicKey)
    → is_ed25519 k ≡ true
    → (raw : Text) × (env.key_to_string k ≡ codes "ed25519:" ++ raw)

strip_prefix-append : (p raw : Text) → strip_prefix p (p ++ raw) ≡ some raw
unfolding strip_prefix
strip_prefix-append [] raw = refl
strip_prefix-append (c ∷ p) raw = ground (arith, strip_prefix-append p raw)

printed_base58 :
    (env : Host) (k : PublicKey) (raw : Text)
    → is_ed25519 k ≡ true
    → env.key_to_string k ≡ codes "ed25519:" ++ raw
    → ed25519_base58 env k ≡ some raw
unfolding ed25519_base58
printed_base58 env k raw good text =
    let stripped : strip_prefix (codes "ed25519:") (env.key_to_string k) ≡ some raw =
      rw text (strip_prefix-append (codes "ed25519:") raw) in
    ground arith

usable_key_lem :
    (derived : Option PublicKey) (k : PublicKey)
    → Minting.usable_key derived ≡ some k
    → derived ≡ some k
unfolding Minting.usable_key
usable_key_lem none k h = cc
usable_key_lem (some d) k h = ground arith

module _ {Nonces : Type 0} (lib : SignerLib Nonces) where
  -- How a mint ended: the money went to the new account or back to the registry, once, and the signer
  -- has a new entry for the account exactly when it is active.
  abbrev pub MintEnded :
      MintEnv → Text → PublicKey → ℕ → MintWorld Nonces → MintOutcome → MintWorld Nonces → Type 0
  MintEnded env account owner funding w MintOutcome.active w' =
      (w'.moved ≡ (account, funding) ∷ w.moved)
      × (lookup account w.signer.signers ≡ none)
      × ((e : SignerEntry Nonces) × (mpc : PublicKey) × (raw : Text) × (lookup account
              w'.signer.signers
            ≡ some e)
          × (env.derived ≡ some mpc)
          × (ed25519_base58 env.callback_host owner ≡ some raw)
          × (lib.parse_ed25519 raw ≡ some e.public_key)
          × (e.mpc_public_key ≡ mpc)
          × (e.frozen ≡ unfrozen))
  MintEnded env account owner funding w MintOutcome.signer_pending w' =
      (w'.moved ≡ (account, funding) ∷ w.moved) × (w'.signer ≡ w.signer)
  MintEnded env account owner funding w MintOutcome.creation_failed w' =
      (w'.moved ≡ (w.manager.registry, funding) ∷ w.moved) × (w'.signer ≡ w.signer)

  abbrev pub Ends : MintEnv → Text → PublicKey → ℕ → MintWorld Nonces → ℕ → Chained → Type 0
  Ends env account owner funding w fuel chained =
      (outcome : MintOutcome) × (w' : MintWorld Nonces) × (follow lib env fuel chained w
        ≡ some (some outcome, w'))
      × MintEnded env account owner funding w outcome w'

  -- What follows from what a callback answers.
  abbrev carries_on :
      MintEnv → ℕ → After → MintWorld Nonces → Option (Option MintOutcome × MintWorld Nonces)
  carries_on env n (goes chained) w = follow lib env n chained w
  carries_on env n (finished outcome) w = some (some outcome, w)
  carries_on env n panicked w = some (none, w)

  follow_step :
      (env : MintEnv) (n : ℕ) (sent : ManagerCall) (callback : ManagerCallback)
      (w w' : MintWorld Nonces) (r : CallResult) (a : After)
      → perform lib env sent w ≡ (w', r)
      → resume lib env callback r w.manager ≡ a
      → follow lib env (suc n) (sent, callback) w ≡ carries_on env n a w'
  unfolding follow
  follow_step env n sent callback w w' r (goes chained) performed resumed_as = ground arith
  follow_step env n sent callback w w' r (finished outcome) performed resumed_as = ground arith
  follow_step env n sent callback w w' r panicked performed resumed_as = ground arith

  refund-Ends :
      (env : MintEnv) (account : Text) (owner : PublicKey) (funding : ℕ) (w : MintWorld Nonces)
      (n : ℕ)
      → Ends env account owner funding w (suc n) (Minting.refund_and_fail funding w.manager)
  unfolding perform resume Minting.refund_and_fail Minting.creation_failed
  refund-Ends env account owner funding w n = (
    MintOutcome.creation_failed,
    record w { moved = (w.manager.registry, funding) ∷ w.moved },
    follow_step env n (ManagerCall.transfer_near w.manager.registry funding) on_creation_failed w
        (record w { moved = (w.manager.registry, funding) ∷ w.moved }) (done true)
        (finished MintOutcome.creation_failed) refl refl,
    (refl, refl),
  )

  install_inv :
      (env : Host) (v k : Text) (mpc : PublicKey) (s s' : ActiveSigner Nonces)
      → Owners.install_signer lib env v k mpc s ≡ ok s'
      → (lookup v s.signers ≡ none)
        × ((e : SignerEntry Nonces) × (lookup v s'.signers ≡ some e)
            × (lib.parse_ed25519 k ≡ some e.public_key)
            × (e.mpc_public_key ≡ mpc)
            × (e.frozen ≡ unfrozen))
  unfolding Owners.install_signer
  install_inv env v k mpc s s' h = elim (Option-cases (lib.parse_ed25519 k)) [
    | inl bad ↦ ground arith
    | inr (p, parsed) ↦
        let fresh : SignerEntry Nonces = record {
          public_key = p;
          mpc_public_key = mpc;
          nonces = lib.fresh_nonces s.timeout_secs;
          freeze_nonces = lib.fresh_nonces s.timeout_secs;
          last_signed_at = 0;
          frozen = unfrozen;
        } in
        (
          ground arith,
          (
            fresh,
            ground (arith, lookup-insert v v fresh s.signers, text_eq_refl v),
            ground arith,
            refl,
            refl,
          ),
        )
  ]

  install_ends :
      (env : MintEnv) (account raw : Text) (owner mpc : PublicKey) (funding : ℕ)
      (w : MintWorld Nonces) (n : ℕ)
      → env.derived ≡ some mpc
      → ed25519_base58 env.callback_host owner ≡ some raw
      → (outcome : MintOutcome) × (w' : MintWorld Nonces) × (follow lib env
            (suc n)
            (
              ManagerCall.install_signer w.manager.active_signer account raw mpc,
              on_signer_settled account,
            )
            (record w { moved = (account, funding) ∷ w.moved })
          ≡ some (some outcome, w'))
        × MintEnded env account owner funding w outcome w'
  unfolding perform resume Minting.signer_settled
  install_ends env account raw owner mpc funding w n derived printed =
      elim (Result-cases (Owners.install_signer lib env.signer_host account raw mpc w.signer)) [
        | inl (s', installed) ↦
            let (absent, (e, found, parsed, same_mpc, thawed)) =
              install_inv env.signer_host account raw mpc w.signer s' installed in
            (
              MintOutcome.active,
              record w { moved = (account, funding) ∷ w.moved; signer = s' },
              follow_step env n (ManagerCall.install_signer w.manager.active_signer account raw mpc)
                  (on_signer_settled account) (record w { moved = (account, funding) ∷ w.moved })
                  (record w { moved = (account, funding) ∷ w.moved; signer = s' }) (done true)
                  (finished MintOutcome.active) (ground arith) refl,
              (refl, absent, (e, mpc, raw, found, derived, printed, parsed, same_mpc, thawed)),
            )
        | inr (e, refused) ↦ (
          MintOutcome.signer_pending,
          record w { moved = (account, funding) ∷ w.moved },
          follow_step env n (ManagerCall.install_signer w.manager.active_signer account raw mpc)
              (on_signer_settled account) (record w { moved = (account, funding) ∷ w.moved })
              (record w { moved = (account, funding) ∷ w.moved }) (done false)
              (finished MintOutcome.signer_pending) (ground arith) refl,
          (refl, refl),
        )
      ]

  wallet-Ends :
      (env : MintEnv) (account raw : Text) (owner mpc : PublicKey) (funding : ℕ)
      (w : MintWorld Nonces)
      → env.derived ≡ some mpc
      → ed25519_base58 env.callback_host owner ≡ some raw
      → Ends env account owner funding w 2
          (create_account account funding mpc, on_wallet_created account owner mpc funding)
  unfolding perform resume Minting.wallet_created
  wallet-Ends env account raw owner mpc funding w derived printed =
      elim (Bool-cases env.creatable) [
        | inr refused ↦
            let (outcome, w', runs, ended) = refund-Ends env account owner funding w 0 in
            (
              outcome,
              w',
              follow_step env 1 (create_account account funding mpc)
                    (on_wallet_created account owner mpc funding) w w (done false)
                    (goes (Minting.refund_and_fail funding w.manager)) (ground arith) refl
                  ∙ runs,
              ended,
            )
        | inl opened ↦
            let (outcome, w', runs, ended) =
              install_ends env account raw owner mpc funding w 0 derived printed in
            (
              outcome,
              w',
              follow_step env 1 (create_account account funding mpc)
                    (on_wallet_created account owner mpc funding) w
                    (record w { moved = (account, funding) ∷ w.moved }) (done true)
                    (goes (
                      ManagerCall.install_signer w.manager.active_signer account raw mpc,
                      on_signer_settled account,
                    ))
                    (ground arith) (ground arith)
                  ∙ runs,
              ended,
            )
      ]

  key-Ends :
      (env : MintEnv) (account raw : Text) (owner : PublicKey) (funding : ℕ) (w : MintWorld Nonces)
      → ed25519_base58 env.callback_host owner ≡ some raw
      → Ends env account owner funding w 3
          (Minting.derive_key account w.manager, on_key_derived account owner funding)
  unfolding perform resume Minting.derive_key Minting.key_derived
  key-Ends env account raw owner funding w printed =
      elim (Option-cases (Minting.usable_key env.derived)) [
        | inl useless ↦
            let (outcome, w', runs, ended) = refund-Ends env account owner funding w 1 in
            (
              outcome,
              w',
              follow_step env 2 (Minting.derive_key account w.manager)
                    (on_key_derived account owner funding) w w (key env.derived)
                    (goes (Minting.refund_and_fail funding w.manager)) refl (ground arith)
                  ∙ runs,
              ended,
            )
        | inr (mpc, usable) ↦
            let (outcome, w', runs, ended) =
              wallet-Ends env account raw owner mpc funding w
                (usable_key_lem env.derived mpc usable) printed in
            (
              outcome,
              w',
              follow_step env 2 (Minting.derive_key account w.manager)
                    (on_key_derived account owner funding) w w (key env.derived)
                    (goes (
                      create_account account funding mpc,
                      on_wallet_created account owner mpc funding,
                    ))
                    refl (ground arith)
                  ∙ runs,
              ended,
            )
      ]

  create_inv :
      (host : Host) (name : Text) (owner : PublicKey) (s : TlaManager) (chained : Chained)
      → Minting.create_sub_account host name owner s ≡ ok chained
      → (is_ed25519 owner ≡ true)
        × (s.min_balance ≤ host.attached_deposit)
        × (chained ≡ (
          Minting.derive_key (Minting.account_of name host.current_account) s,
          on_key_derived (Minting.account_of name host.current_account) owner host.attached_deposit,
        ))
  unfolding Minting.create_sub_account
  create_inv host name owner s chained h = (ground arith, ground arith, ground arith)

  pub create_sub_account-Ends :
      (host : Host) (env : MintEnv) (name : Text) (owner : PublicKey) (w : MintWorld Nonces)
      (chained : Chained)
      → PrintsKeys env.callback_host
      → Minting.create_sub_account host name owner w.manager ≡ ok chained
      → Ends env
          (Minting.account_of name host.current_account)
          owner
          host.attached_deposit
          w
          3
          chained
  create_sub_account-Ends host env name owner w chained prints h =
      let (good_key, funded, chain) = create_inv host name owner w.manager chained h in
      let (raw, text) = prints owner good_key in
      rw chain (
        key-Ends env (Minting.account_of name host.current_account) raw owner host.attached_deposit
          w (printed_base58 env.callback_host owner raw good_key text))
