-- ===== src/Recovery/Finalizing.antt =====
-- The finalization of a wallet's recovery (contracts/mpc-recovery/src/lib.rs): what the call asks for, and
-- what its callback leaves.
use hos_tla_contracts.Recovery.Deciding
use hos_tla_contracts.Base.{
  Bool, Option, Option-cases, Result-cases, Text, arith, false, inl, inr, insert, lookup,
  lookup-insert, none, ok, some, text_eq_refl, true, ℕ, ◌≡◌,
}
use hos_tla_contracts.Common.Keys.{ed25519_base58}
use hos_tla_contracts.Host.{Host, PublicKey}
use hos_tla_contracts.Recovery.Deciding.{
  RecoveryCall, RecoveryCallback, calls_swap_owner, finalized_back,
}
use hos_tla_contracts.Recovery.Types.{
  Account, MpcRecovery, Phase, RecoveryLib, Target, approved, approving, idle, native, requested,
  resolving, resolving_owner, wallet,
}

-- What the callback of a swap leaves of the account.
abbrev pub left_of : Account → PublicKey → ℕ → Option Bool → Account
left_of entry new_owner round (some true) = record entry {
  policy = record entry.policy { target = Deciding.rebind new_owner entry.policy.target };
  phase = idle;
}
left_of entry new_owner round (some false) = record entry { phase = idle }
left_of entry new_owner round none = record entry { phase = approved new_owner round }

pub finalized-lookup :
    (account : Text) (entry : Account) (new_owner : PublicKey) (round : ℕ) (result : Option Bool)
    (r : MpcRecovery)
    → let r' = Deciding.set_phase account entry (resolving new_owner round) r in
      lookup account (Deciding.on_finalized account round result r').accounts
      ≡ some (left_of entry new_owner round result)
unfolding Deciding.on_finalized Deciding.set_phase resolving_owner
finalized-lookup account entry new_owner round (some true) r =
    let first = record entry { phase = resolving new_owner round } in
    let second = left_of entry new_owner round (some true) in
    ground (
      arith,
      lookup-insert account account first r.accounts,
      lookup-insert account account second (insert account first r.accounts),
      text_eq_refl account,
    )
finalized-lookup account entry new_owner round (some false) r =
    let first = record entry { phase = resolving new_owner round } in
    let second = left_of entry new_owner round (some false) in
    ground (
      arith,
      lookup-insert account account first r.accounts,
      lookup-insert account account second (insert account first r.accounts),
      text_eq_refl account,
    )
finalized-lookup account entry new_owner round none r =
    let first = record entry { phase = resolving new_owner round } in
    let second = left_of entry new_owner round none in
    ground (
      arith,
      lookup-insert account account first r.accounts,
      lookup-insert account account second (insert account first r.accounts),
      text_eq_refl account,
    )

pub approved_inv :
    (p : Phase) (k : PublicKey) (round : ℕ)
    → Deciding.as_approved p ≡ ok (k, round)
    → p ≡ approved k round
unfolding Deciding.as_approved
approved_inv idle k round h = cc
approved_inv (requested k' r t) k round h = cc
approved_inv (approving k' r) k round h = cc
approved_inv (approved k' r) k round h = cc
approved_inv (resolving k' r) k round h = cc

promise_inv :
    (rlib : RecoveryLib) (host : Host) (account : Text) (k : PublicKey) (round nonce : ℕ)
    (block_hash : Text) (target : Target) (active_signer : Text) (bound_owner : PublicKey)
    (r : MpcRecovery) (sent : RecoveryCall × RecoveryCallback)
    → target ≡ wallet active_signer bound_owner
    → Deciding.resolve_promise rlib host account k round nonce block_hash target r ≡ ok sent
    → (raw : Text) × (bound : Text) × (ed25519_base58 host k ≡ some raw)
      × (ed25519_base58 host bound_owner ≡ some bound)
      × (sent ≡ (calls_swap_owner active_signer account raw bound, finalized_back account round))
unfolding Deciding.resolve_promise
promise_inv rlib host account k round nonce block_hash (native m) active_signer bound_owner r sent
      is_wallet h =
    cc
promise_inv rlib host account k round nonce block_hash (wallet a b) active_signer bound_owner r sent
      is_wallet h =
    elim (Option-cases (ed25519_base58 host k)) [
      | inl bad ↦ ground arith
      | inr (raw, printed) ↦ elim (Option-cases (ed25519_base58 host b)) [
        | inl bad ↦ ground arith
        | inr (bound, bound_printed) ↦ (raw, bound, printed, ground arith, ground arith)
      ]
    ]

-- What `finalize_recovery` leaves and asks for, for a wallet.
pub finalize_inv :
    (rlib : RecoveryLib) (host : Host) (account : Text) (nonce : ℕ) (block_hash : Text)
    (active_signer : Text) (bound_owner : PublicKey) (entry : Account) (r r' : MpcRecovery)
    (sent : RecoveryCall × RecoveryCallback)
    → lookup account r.accounts ≡ some entry
    → entry.policy.target ≡ wallet active_signer bound_owner
    → Deciding.finalize_recovery rlib host account nonce block_hash r ≡ ok (r', some sent)
    → (new_owner : PublicKey) × (round : ℕ) × (raw : Text) × (bound : Text) × (entry.phase
        ≡ approved new_owner round)
      × (ed25519_base58 host new_owner ≡ some raw)
      × (ed25519_base58 host bound_owner ≡ some bound)
      × (r' ≡ Deciding.set_phase account entry (resolving new_owner round) r)
      × (sent ≡ (calls_swap_owner active_signer account raw bound, finalized_back account round))
unfolding Deciding.finalize_recovery
finalize_inv rlib host account nonce block_hash active_signer bound_owner entry r r' sent found
      target h =
    elim (Result-cases (Deciding.as_approved entry.phase)) [
      | inr (e, bad) ↦ ground arith
      | inl ((new_owner, round), closing) ↦
          elim (Result-cases (
            Deciding.resolve_promise rlib host account new_owner round nonce block_hash
              entry.policy.target r)) [
                | inr (e, refused) ↦ ground arith
                | inl (p, promised) ↦
                    let (raw, bound, printed, bound_printed, asked) =
                      promise_inv rlib host account new_owner round nonce block_hash
                        entry.policy.target active_signer bound_owner r p target promised in
                    (
                      new_owner,
                      round,
                      raw,
                      bound,
                      approved_inv entry.phase new_owner round closing,
                      printed,
                      bound_printed,
                      ground arith,
                      ground arith,
                    )
              ]
    ]
