-- ===== src/Signer/Life.antt =====
-- Every call does to a wallet's entry one of the changes that `EntryChange` lists.
use hos_tla_contracts.Signer.Owners
use hos_tla_contracts.Base.{
  Bool, Bool-cases, Option, Option-cases, Result-cases, Text, ap, arith, err, false, if◌then◌else◌,
  inl, inr, insert, lookup, none, ok, refl, some, text_eq, text_eq_iff, true, ◌≡◌, ◌≢◌, ◌⊎◌,
}
use hos_tla_contracts.Host.{Host}
use hos_tla_contracts.Signer.Errors.{Answer}
use hos_tla_contracts.Signer.Owners.{has_expected}
use hos_tla_contracts.Signer.Payloads.{message_tag, tx_tag, verify_tagged}
use hos_tla_contracts.Signer.System.{
  SignerMethod, carries_message, carries_tx, changes_owner, is_frozen_for_recovery, kept, left_by,
  run, signed_message, signed_tx, thaws,
}
use hos_tla_contracts.Signer.Types.{
  ActiveSigner, SignerEntry, SignerLib, is_self_frozen, is_unfrozen, recovery_frozen, unfrozen,
}
use hos_tla_contracts.Signer.Wallets.{
  Evolves, authority-Evolves, authorized-Evolves, install-Evolves, self_freeze-Evolves,
  submit_message_inv, submit_tx_inv, untouched-Evolves, written-Evolves,
}

module _ {Nonces : Type 0} (lib : SignerLib Nonces) where
  freeze-Evolves :
      (env : Host) (v : Text) (expected : Option Text) (w : Text) (e : SignerEntry Nonces)
      (s s' : ActiveSigner Nonces)
      → Owners.freeze lib env v expected s ≡ ok s'
      → lookup w s.signers ≡ some e
      → Evolves lib env (SignerMethod.freeze v expected) w e s s'
  unfolding Owners.freeze
  freeze-Evolves env v expected w e s s' h found = elim (Option-cases (lookup v s.signers)) [
    | inl unknown ↦ ground arith
    | inr (e0, standing) ↦
        let caller : env.predecessor ≡ s.recovery_authority =
          (text_eq_iff env.predecessor s.recovery_authority).0 (ground arith) in
        elim (Bool-cases (is_self_frozen e0.frozen)) [
          | inl self ↦
              written-Evolves lib env (SignerMethod.freeze v expected) v w e e0 e0 s s' found
                standing (ground arith) kept
          | inr other ↦
              written-Evolves lib env (SignerMethod.freeze v expected) v w e e0
                (record e0 { frozen = recovery_frozen }) s s' found standing (ground arith)
                (is_frozen_for_recovery expected refl caller other)
        ]
  ]

  unfreeze-Evolves :
      (env : Host) (v : Text) (w : Text) (e : SignerEntry Nonces) (s s' : ActiveSigner Nonces)
      → Owners.unfreeze lib env v s ≡ ok s'
      → lookup w s.signers ≡ some e
      → Evolves lib env (SignerMethod.unfreeze v) w e s s'
  unfolding Owners.unfreeze
  unfreeze-Evolves env v w e s s' h found = elim (Option-cases (lookup v s.signers)) [
    | inl unknown ↦ ground arith
    | inr (e0, standing) ↦
        let caller : env.predecessor ≡ s.recovery_authority =
          (text_eq_iff env.predecessor s.recovery_authority).0 (ground arith) in
        elim (Bool-cases (is_self_frozen e0.frozen)) [
          | inl self ↦
              untouched-Evolves lib env (SignerMethod.unfreeze v) w e s s' found (ground arith)
          | inr other ↦
              written-Evolves lib env (SignerMethod.unfreeze v) v w e e0
                (record e0 { frozen = unfrozen }) s s' found standing (ground arith)
                (thaws refl caller other)
        ]
  ]

  -- Who may swap the owner of an entry.
  abbrev pub MaySwap : Host → ActiveSigner Nonces → SignerEntry Nonces → Type 0
  MaySwap env s e =
      ((env.predecessor ≡ s.marketplace_authority) × (is_unfrozen e.frozen ≡ true))
      ⊎ ((env.predecessor ≡ s.recovery_authority) × (is_unfrozen e.frozen ≡ false))

  -- The entry of a new owner.
  abbrev pub owned_by : Text → ActiveSigner Nonces → SignerEntry Nonces → SignerEntry Nonces
  owned_by key s e = record e {
    frozen = unfrozen;
    public_key = key;
    nonces = lib.fresh_nonces s.timeout_secs;
    freeze_nonces = lib.fresh_nonces s.timeout_secs;
  }

  -- Whether the expected key, where there is one, reads as the current one.
  abbrev pub Agrees : Option Text → SignerEntry Nonces → Bool → Type 0
  Agrees expected e agreed =
      ((expected ≡ none) × (agreed ≡ true))
      ⊎ ((text : Text) × (k : Text) × (expected ≡ some text)
          × (lib.parse_ed25519 text ≡ some k)
          × (((k ≡ e.public_key) × (agreed ≡ true)) ⊎ ((k ≢ e.public_key) × (agreed ≡ false))))

  has_expected-Agrees :
      (expected : Option Text) (e : SignerEntry Nonces) (agreed : Bool)
      → has_expected lib expected e ≡ ok agreed
      → Agrees expected e agreed
  has_expected-Agrees none e agreed h = inl (refl, ground arith)
  has_expected-Agrees (some text) e agreed h = elim (Option-cases (lib.parse_ed25519 text)) [
    | inl bad ↦ ground arith
    | inr (k, parsed) ↦ inr (
      text,
      k,
      refl,
      parsed,
      elim (Bool-cases (text_eq e.public_key k)) [
        | inl same ↦ inl (ground (arith, text_eq_iff e.public_key k), ground arith)
        | inr other ↦ inr (λ q. ground (arith, text_eq_iff e.public_key k), ground arith)
      ],
    )
  ]

  -- What a swap that returns has checked and what it leaves; the flag is its result.
  abbrev pub SwapOutcome :
      Host → Text → Text → Option Text → ActiveSigner Nonces → ActiveSigner Nonces → Bool → Type 0
  SwapOutcome env v key expected s s' swapped =
      (e : SignerEntry Nonces) × (k : Text) × (lookup v s.signers ≡ some e)
      × (lib.parse_ed25519 key ≡ some k)
      × MaySwap env s e
      × Agrees expected e swapped
      × (s' ≡ (if swapped then record s { signers = insert v (owned_by k s e) s.signers } else s))

  -- A swap of the owner that returns had a key that parses and an installed wallet, and its
  -- caller was the marketplace with the wallet not frozen or the recovery with it frozen. It
  -- returns true where no key is expected or where the expected one parses to the wallet's
  -- current key, and then installs the new key with fresh windows and no freeze; it returns false
  -- where the expected key parses to another key, and then changes nothing.
  pub swap_owner_checks :
      (env : Host) (v key : Text) (expected : Option Text) (s s' : ActiveSigner Nonces)
      (swapped : Bool)
      → Owners.swap_owner lib env v key expected s ≡ ok (s', swapped)
      → SwapOutcome env v key expected s s' swapped
  unfolding Owners.swap_owner
  swap_owner_checks env v key expected s s' swapped h =
      elim (Option-cases (lib.parse_ed25519 key)) [
        | inl bad ↦ ground arith
        | inr (k, parsed) ↦ elim (Option-cases (lookup v s.signers)) [
          | inl unknown ↦ ground arith
          | inr (e, found) ↦ elim (Result-cases (has_expected lib expected e)) [
            | inr (e', bad) ↦ ground arith
            | inl (agreed, checked) ↦ (
              e,
              k,
              found,
              parsed,
              allowed e found,
              has_expected-Agrees expected e swapped (ground arith),
              ground arith,
            )
          ]
        ]
      ]
    where
      allowed : (e : SignerEntry Nonces) → lookup v s.signers ≡ some e → MaySwap env s e
      allowed e found = elim (Bool-cases (text_eq env.predecessor s.marketplace_authority)) [
        | inl market ↦
            inl ((text_eq_iff env.predecessor s.marketplace_authority).0 market, ground arith)
        | inr other ↦
            inr ((text_eq_iff env.predecessor s.recovery_authority).0 (ground arith), ground arith)
      ]

  swap-Evolves :
      (env : Host) (v key : Text) (expected : Option Text) (w : Text) (e : SignerEntry Nonces)
      (s s' : ActiveSigner Nonces) (swapped : Bool)
      → Owners.swap_owner lib env v key expected s ≡ ok (s', swapped)
      → lookup w s.signers ≡ some e
      → Evolves lib env (SignerMethod.swap_owner v key expected) w e s s'
  swap-Evolves env v key expected w e s s' false h found =
      let (e0, k, standing, parsed, allowed, agreed, written) =
        swap_owner_checks env v key expected s s' false h in
      untouched-Evolves lib env (SignerMethod.swap_owner v key expected) w e s s' found
        (ap (λ u. u.signers) written)
  swap-Evolves env v key expected w e s s' true h found =
      let (e0, k, standing, parsed, allowed, agreed, written) =
        swap_owner_checks env v key expected s s' true h in
      written-Evolves lib env (SignerMethod.swap_owner v key expected) v w e e0 (owned_by k s e0) s
        s' found standing (ap (λ u. u.signers) written)
        (changes_owner key k expected refl parsed allowed)

  left_by_inv :
      {R : Type 0} (r : Answer (ActiveSigner Nonces × R)) (s' : ActiveSigner Nonces)
      → left_by r ≡ ok s'
      → (x : R) × (r ≡ ok (s', x))
  left_by_inv (ok (s, x)) s' h = (x, ground arith)
  left_by_inv (err e) s' h = cc

  -- Every call that goes through leaves a wallet's entry in place and does to it nothing, or one
  -- of the changes of its state machine: a spent number and a new signing time by a transaction
  -- or a message whose signature under the entry's key verifies, while it is not frozen; a
  -- signing time by a transaction of the marketplace, while it is not frozen; a new owner by a
  -- swap to a key that parses, by the marketplace while it is not frozen or by the recovery while
  -- it is; a freeze, with a spent number, by a freeze message for this wallet and mainnet whose
  -- signature under the entry's key verifies; or a freeze or an unfreeze by the recovery while
  -- its owner has not frozen it.
  pub run-Evolves :
      (env : Host) (m : SignerMethod) (w : Text) (e : SignerEntry Nonces)
      (s s' : ActiveSigner Nonces)
      → run lib env m s ≡ ok s'
      → lookup w s.signers ≡ some e
      → Evolves lib env m w e s s'
  unfolding run verify_tagged Owners.add_minter Owners.remove_minter Owners.add_admin
      Owners.remove_admin
  run-Evolves env (SignerMethod.add_minter a) w e s s' h found =
      untouched-Evolves lib env (SignerMethod.add_minter a) w e s s' found (ground arith)
  run-Evolves env (SignerMethod.remove_minter a) w e s s' h found =
      untouched-Evolves lib env (SignerMethod.remove_minter a) w e s s' found (ground arith)
  run-Evolves env (SignerMethod.add_admin a) w e s s' h found =
      untouched-Evolves lib env (SignerMethod.add_admin a) w e s s' found (ground arith)
  run-Evolves env (SignerMethod.remove_admin a) w e s s' h found =
      untouched-Evolves lib env (SignerMethod.remove_admin a) w e s s' found (ground arith)
  run-Evolves env (SignerMethod.install_signer v key mpc) w e s s' h found =
      install-Evolves lib env v key mpc (SignerMethod.install_signer v key mpc) w e s s' h found
  run-Evolves env (SignerMethod.submit_signed_tx v msg proof n hash) w e s s' h found =
      let (k, signed) = submit_tx_inv lib env v msg proof n hash s s' h in
      authorized-Evolves lib env (SignerMethod.submit_signed_tx v msg proof n hash) v w msg.nonce
        msg.created_at_secs msg.timeout_secs
        (λ key. verify_tagged lib tx_tag (lib.borsh_tx msg) key proof) e s s' k
        (carries_tx v msg proof n hash) (λ key verified. signed_tx v msg proof n hash verified)
        signed found
  run-Evolves env (SignerMethod.submit_signed_message v msg proof) w e s s' h found =
      let (k, signed) = submit_message_inv lib env v msg proof s s' h in
      authorized-Evolves lib env (SignerMethod.submit_signed_message v msg proof) v w msg.nonce
        msg.created_at_secs msg.timeout_secs
        (λ key. verify_tagged lib message_tag (lib.borsh_message msg) key proof) e s s' k
        (carries_message v msg proof) (λ key verified. signed_message v msg proof verified) signed
        found
  run-Evolves env (SignerMethod.authority_sign_tx v to actions n hash) w e s s' h found =
      authority-Evolves lib env v to actions n hash w e s s' h found
  run-Evolves env (SignerMethod.swap_owner v key expected) w e s s' h found =
      let (swapped, done) = left_by_inv (Owners.swap_owner lib env v key expected s) s' h in
      swap-Evolves env v key expected w e s s' swapped done found
  run-Evolves env (SignerMethod.self_freeze v msg proof) w e s s' h found =
      self_freeze-Evolves lib env v msg proof w e s s' h found
  run-Evolves env (SignerMethod.freeze v expected) w e s s' h found =
      freeze-Evolves env v expected w e s s' h found
  run-Evolves env (SignerMethod.unfreeze v) w e s s' h found =
      unfreeze-Evolves env v w e s s' h found
