-- ===== src/Network/Rescue.antt =====
-- A recovery of a wallet is settled in the recovery and in the signer, or in neither.
use hos_tla_contracts.Signer.Owners
use hos_tla_contracts.Recovery.Deciding
use hos_tla_contracts.Base.{
  Bool, Result-cases, Text, ap, arith, err, false, inl, inr, lookup, lookup-insert, none, ok, refl,
  some, text_eq_refl, true, ℕ, ◌∙◌, ◌≡◌, ◌⊎◌,
}
use hos_tla_contracts.Common.Keys.{ed25519_base58}
use hos_tla_contracts.Host.{Host, PublicKey}
use hos_tla_contracts.Network.Moving.{expected_read}
use hos_tla_contracts.Network.Recoveries.{settle_call}
use hos_tla_contracts.Recovery.Deciding.{
  RecoveryCall, RecoveryCallback, calls_swap_owner, finalized_back,
}
use hos_tla_contracts.Recovery.Finalizing.{finalize_inv, finalized-lookup}
use hos_tla_contracts.Recovery.Types.{
  Account, MpcRecovery, RecoveryLib, Target, approved, idle, resolving, wallet,
}
use hos_tla_contracts.Signer.Errors.{SignerError}
use hos_tla_contracts.Signer.Life.{owned_by, swap_owner_checks}
use hos_tla_contracts.Signer.Types.{ActiveSigner, SignerEntry, SignerLib}

module _ {Nonces : Type 0} (lib : SignerLib Nonces) where
  -- The signer's key is the one that the policy is bound to.
  abbrev ReadsBound : Host → Target → SignerEntry Nonces → Type 0
  ReadsBound host target e =
      (active_signer : Text) × (bound_owner : PublicKey) × (bound : Text) × (target
        ≡ wallet active_signer bound_owner)
      × (ed25519_base58 host bound_owner ≡ some bound)
      × (lib.parse_ed25519 bound ≡ some e.public_key)

  -- The recovery has gone through: the signer has the new key in place of the bound one, unfrozen, and
  -- the policy is bound to the new owner, with no recovery open.
  abbrev pub IsRecovered :
      Host
      → Text
      → Text
      → Account
      → PublicKey
      → ActiveSigner Nonces
      → MpcRecovery × ActiveSigner Nonces
      → Type 0
  IsRecovered host active_signer account entry new_owner s w =
      (e : SignerEntry Nonces) × (k : Text) × (raw : Text) × (ed25519_base58 host new_owner
        ≡ some raw)
      × (lib.parse_ed25519 raw ≡ some k)
      × (lookup account s.signers ≡ some e)
      × ReadsBound host entry.policy.target e
      × (lookup account w.1.signers ≡ some (owned_by lib k s e))
      × (lookup account w.0.accounts
          ≡ some (record entry {
            policy = record entry.policy { target = wallet active_signer new_owner };
            phase = idle;
          }))

  -- It has not: the signer is as before, and the policy too, with the recovery closed or approved still.
  abbrev pub IsUnrecovered :
      Text
      → Account
      → PublicKey
      → ℕ
      → ActiveSigner Nonces
      → MpcRecovery × ActiveSigner Nonces
      → Type 0
  IsUnrecovered account entry new_owner round s w =
      (w.1 ≡ s)
      × ((lookup account w.0.accounts ≡ some (record entry { phase = idle }))
          ⊎ (lookup account w.0.accounts
              ≡ some (record entry { phase = approved new_owner round })))

  rebound-lookup :
      (active_signer : Text) (bound_owner : PublicKey) (account : Text) (entry : Account)
      (new_owner : PublicKey) (round : ℕ) (r : MpcRecovery)
      → entry.policy.target ≡ wallet active_signer bound_owner
      → lookup account
          (Deciding.on_finalized account round
            (some true)
            (Deciding.set_phase account entry (resolving new_owner round) r)).accounts
        ≡ some (record entry {
          policy = record entry.policy { target = wallet active_signer new_owner };
          phase = idle;
        })
  rebound-lookup active_signer bound_owner account entry new_owner round r target =
      finalized-lookup account entry new_owner round (some true) r
      ∙ ap
          (λ t. some (record entry {
            policy = record entry.policy { target = Deciding.rebind new_owner t };
            phase = idle;
          }))
          target

  -- A swap that ends, with the callback that it runs.
  swap_settled :
      (env : Host) (active_signer account raw bound : Text) (round : ℕ) (r : MpcRecovery)
      (s s' : ActiveSigner Nonces) (swapped : Bool)
      → Owners.swap_owner lib env account raw (some bound) s ≡ ok (s', swapped)
      → settle_call lib env
          (calls_swap_owner active_signer account raw bound, finalized_back account round)
          r
          s
        ≡ (Deciding.on_finalized account round (some swapped) r, s')
  unfolding settle_call
  swap_settled env active_signer account raw bound round r s s' swapped h = ground arith

  swap_failed :
      (env : Host) (active_signer account raw bound : Text) (round : ℕ) (r : MpcRecovery)
      (s : ActiveSigner Nonces) (e : SignerError)
      → Owners.swap_owner lib env account raw (some bound) s ≡ err e
      → settle_call lib env
          (calls_swap_owner active_signer account raw bound, finalized_back account round)
          r
          s
        ≡ (Deciding.on_finalized account round none r, s)
  unfolding settle_call
  swap_failed env active_signer account raw bound round r s e h = ground arith

  -- A finalization of a wallet's recovery that goes through had the recovery approved for a new
  -- owner; once its call of the signer has ended and its callback has run, either the signer's
  -- key, which was the bound one, is the new owner's, and the policy's target is the same signer
  -- with the new owner as the bound one, with no recovery open, or the signer is unchanged and
  -- the recovery is closed or still approved for the same owner and round.
  pub recovery_is_atomic :
      (rlib : RecoveryLib) (host env : Host) (account : Text) (nonce : ℕ) (block_hash : Text)
      (active_signer : Text) (bound_owner : PublicKey) (entry : Account) (r r' : MpcRecovery)
      (sent : RecoveryCall × RecoveryCallback) (s : ActiveSigner Nonces)
      → lookup account r.accounts ≡ some entry
      → entry.policy.target ≡ wallet active_signer bound_owner
      → Deciding.finalize_recovery rlib host account nonce block_hash r ≡ ok (r', some sent)
      → (new_owner : PublicKey) × (round : ℕ) × (entry.phase ≡ approved new_owner round)
        × (IsRecovered host active_signer account entry new_owner s (settle_call lib env sent r' s)
            ⊎ IsUnrecovered account entry new_owner round s (settle_call lib env sent r' s))
  recovery_is_atomic rlib host env account nonce block_hash active_signer bound_owner entry r r'
        sent s found target h =
      let (new_owner, round, raw, bound, phase, printed, bound_printed, left, asked) =
        finalize_inv rlib host account nonce block_hash active_signer bound_owner entry r r' sent
          found target h in
      (
        new_owner,
        round,
        phase,
        elim (Result-cases (Owners.swap_owner lib env account raw (some bound) s)) [
          | inr (e, refused) ↦
              rw
                (
                  asked,
                  left,
                  swap_failed env active_signer account raw bound round
                      (Deciding.set_phase account entry (resolving new_owner round) r) s e refused,
                )
                (inr (refl, inr (finalized-lookup account entry new_owner round none r)))
          | inl ((s', false), swap) ↦
              let (e, k, installed, parsed, allowed, agreed, written) =
                swap_owner_checks lib env account raw (some bound) s s' false swap in
              rw
                (
                  asked,
                  left,
                  swap_settled env active_signer account raw bound round
                      (Deciding.set_phase account entry (resolving new_owner round) r) s s' false
                      swap,
                )
                (inr (written, inl (finalized-lookup account entry new_owner round (some false) r)))
          | inl ((s', true), swap) ↦
              let (e, k, installed, parsed, allowed, agreed, written) =
                swap_owner_checks lib env account raw (some bound) s s' true swap in
              let next_entry = owned_by lib k s e in
              rw
                (
                  asked,
                  left,
                  swap_settled env active_signer account raw bound round
                      (Deciding.set_phase account entry (resolving new_owner round) r) s s' true
                      swap,
                )
                (inl (
                  e,
                  k,
                  raw,
                  printed,
                  parsed,
                  installed,
                  (
                    active_signer,
                    bound_owner,
                    bound,
                    target,
                    bound_printed,
                    expected_read lib bound e agreed,
                  ),
                  ground (
                    arith,
                    lookup-insert account account next_entry s.signers,
                    text_eq_refl account,
                  ),
                  rebound-lookup active_signer bound_owner account entry new_owner round r target,
                ))
        ],
      )
