-- ===== src/Recovery/Deciding.antt =====
-- contracts/mpc-recovery/src/lib.rs: the verdict, the finalization, the abort, and their callbacks.
use hos_tla_contracts.Base.{
  Bool, List, Option, Text, [], codes, ensure, err, false, if◌then◌else◌, insert, leb, length,
  lookup, ltb, none, not, ok, ok_or, reject, some, text_eq, true, u64_max, ℕ, ◌&&◌, ◌*◌, ◌++◌, ◌+◌,
  ◌==◌, ◌>>=◌, ◌>>◌, ◌∷◌,
}
use hos_tla_contracts.Common.Keys.{ed25519_base58}
use hos_tla_contracts.Common.Tx.{to_hex}
use hos_tla_contracts.Host.{Host, PublicKey}
use hos_tla_contracts.Recovery.Errors.{
  Outcome, no_policy, no_quorum, not_active, not_approved, not_native, not_requested, only_owner,
  overflow, owner_not_ed25519, timelock_not_elapsed,
}
use hos_tla_contracts.Recovery.Opening.{ns_per_sec}
use hos_tla_contracts.Recovery.Proof.{add_key_tx, verdict_message, verify_quorum}
use hos_tla_contracts.Recovery.Types.{
  Account, MpcRecovery, Phase, RecoveryLib, Target, WatcherSignature, approved, approving, idle,
  is_native, native, requested, resolving, resolving_owner, wallet,
}

-- The calls of other contracts, and the callbacks.
pub data RecoveryCall : Type 0 where
  calls_freeze : (active_signer account expected_current : Text) → RecoveryCall
  calls_unfreeze : (active_signer account : Text) → RecoveryCall
  calls_swap_owner : (active_signer account new_public_key expected_current : Text) → RecoveryCall
  calls_sign : (signer path payload_hash : Text) → RecoveryCall

pub data RecoveryCallback : Type 0 where
  frozen_back finalized_back aborted_back : (account : Text) (round : ℕ) → RecoveryCallback
  signed_back : (account : Text) (round : ℕ) (signed_tx_hash : Text) → RecoveryCallback

-- `PromiseOrValue`: `none` is a value.
abbrev pub Sent : Type 0
Sent = Option (RecoveryCall × RecoveryCallback)

abbrev pub base58_or_panic : Host → PublicKey → Outcome Text
base58_or_panic env key = ok_or (ed25519_base58 env key) owner_not_ed25519

-- A write of an account's phase.
unfoldable pub set_phase : Text → Account → Phase → MpcRecovery → MpcRecovery
set_phase account entry phase s = record s {
  accounts = insert account (record entry { phase = phase }) s.accounts;
}

-- The request that waits for its verdict: the new owner, the round and the time.
unfoldable pub as_requested : Phase → Outcome (PublicKey × ℕ × ℕ)
as_requested (requested k r t) = ok (k, r, t)
as_requested idle = err not_requested
as_requested (approving k r) = err not_requested
as_requested (approved k r) = err not_requested
as_requested (resolving k r) = err not_requested

-- A signature of another length is dropped.
unfoldable pub sized_signatures : List WatcherSignature → List WatcherSignature
sized_signatures [] = []
sized_signatures (w ∷ ws) =
    let rest = sized_signatures ws in if length w.signature == 64 then w ∷ rest else rest

-- The last part of `submit_verdict`, for a verdict of silence.
unfoldable pub approve :
    Host → Text → Account → PublicKey → ℕ → Target → MpcRecovery → Outcome (MpcRecovery × Sent)
unfolding set_phase
approve env account entry new_owner round (wallet active_signer bound_owner) s =
    base58_or_panic env bound_owner >>= λ expected. ok (
      set_phase account entry (approving new_owner round) s,
      some (calls_freeze active_signer account expected, frozen_back account round),
    )
approve env account entry new_owner round (native mpc_public_key) s =
    ok (set_phase account entry (approved new_owner round) s, none)

unfoldable pub submit_verdict :
    RecoveryLib
    → Host
    → Text
    → Bool
    → List WatcherSignature
    → MpcRecovery
    → Outcome (MpcRecovery × Sent)
submit_verdict lib env account silent signatures s = do
  entry ← ok_or (lookup account s.accounts) no_policy
  pending ← as_requested entry.phase
  let deadline = pending.2 + entry.policy.timelock_secs * ns_per_sec
  reject (ltb u64_max deadline) overflow
  ensure (leb deadline env.block_timestamp) timelock_not_elapsed
  let message = verdict_message env.current_account account pending.0 pending.1 silent
  ensure (verify_quorum lib message (sized_signatures signatures) s.watchers s.threshold) no_quorum
  if silent
      then approve env account entry pending.0 pending.1 entry.policy.target s
      else ok (set_phase account entry idle s, none)

-- `on_frozen`; the flag is whether the promise succeeded.
unfoldable pub on_frozen : Text → ℕ → Bool → MpcRecovery → MpcRecovery
unfolding set_phase
on_frozen account round succeeded s = elim (lookup account s.accounts) [
  | none ↦ s
  | some entry ↦ elim entry.phase [
    | approving new_owner approving_round ↦
        if approving_round == round
        then set_phase account entry (if succeeded then approved new_owner round else idle) s
        else s
    | _ ↦ s
  ]
]

unfoldable pub as_approved : Phase → Outcome (PublicKey × ℕ)
as_approved (approved k r) = ok (k, r)
as_approved idle = err not_approved
as_approved (requested k r t) = err not_approved
as_approved (approving k r) = err not_approved
as_approved (resolving k r) = err not_approved

abbrev pub native_path : Text → Text
native_path account = codes "hos-recovery/" ++ account

-- The promise of `finalize_recovery`.
unfoldable pub resolve_promise :
    RecoveryLib
    → Host
    → Text
    → PublicKey
    → ℕ
    → ℕ
    → Text
    → Target
    → MpcRecovery
    → Outcome (RecoveryCall × RecoveryCallback)
resolve_promise lib env account new_owner round nonce block_hash (native mpc_public_key) s =
    let hash = to_hex (lib.sha256 (add_key_tx account mpc_public_key nonce block_hash new_owner)) in
    ok (calls_sign s.signer (native_path account) hash, signed_back account round hash)
resolve_promise lib env account new_owner round nonce block_hash (wallet active_signer bound_owner)
      s =
    base58_or_panic env new_owner >>= λ key. base58_or_panic env bound_owner >>= λ expected.
    ok (calls_swap_owner active_signer account key expected, finalized_back account round)

unfoldable pub finalize_recovery :
    RecoveryLib → Host → Text → ℕ → Text → MpcRecovery → Outcome (MpcRecovery × Sent)
unfolding set_phase
finalize_recovery lib env account nonce block_hash s = do
  entry ← ok_or (lookup account s.accounts) no_policy
  pending ← as_approved entry.phase
  reject (is_native entry.policy.target && not (text_eq env.predecessor s.owner)) only_owner
  promise ←
      resolve_promise lib env account pending.0 pending.1 nonce block_hash entry.policy.target s
  ok (set_phase account entry (resolving pending.0 pending.1) s, some promise)

-- What an abort does to a phase under a target, with the promise that it makes.
unfoldable pub abort_of : Text → Phase → Target → Outcome (Phase × Sent)
abort_of account (requested k r t) target = ok (idle, none)
abort_of account (approved k r) (native mpc) = ok (idle, none)
abort_of account (approved k r) (wallet active_signer bound_owner) =
    ok (resolving k r, some (calls_unfreeze active_signer account, aborted_back account r))
abort_of account idle target = err not_active
abort_of account (approving k r) target = err not_active
abort_of account (resolving k r) target = err not_active

unfoldable pub abort_recovery : Host → Text → MpcRecovery → Outcome (MpcRecovery × Sent)
unfolding set_phase
abort_recovery env account s = do
  ensure (text_eq env.predecessor s.owner) only_owner
  entry ← ok_or (lookup account s.accounts) no_policy
  aborted ← abort_of account entry.phase entry.policy.target
  ok (set_phase account entry aborted.0 s, aborted.1)

-- The bound owner of a wallet becomes the new one.
abbrev pub rebind : PublicKey → Target → Target
rebind new_owner (native mpc_public_key) = native mpc_public_key
rebind new_owner (wallet active_signer bound_owner) = wallet active_signer new_owner

-- The result is `none` for a `PromiseError`.
unfoldable pub on_finalized : Text → ℕ → Option Bool → MpcRecovery → MpcRecovery
unfolding set_phase resolving_owner
on_finalized account round result s = elim (lookup account s.accounts) [
  | none ↦ s
  | some entry ↦ elim (resolving_owner entry.phase round) [
    | none ↦ s
    | some new_owner ↦ elim result [
      | some true ↦
          let policy = record entry.policy { target = rebind new_owner entry.policy.target } in
          set_phase account (record entry { policy = policy }) idle s
      | some false ↦ set_phase account entry idle s
      | none ↦ set_phase account entry (approved new_owner round) s
    ]
  ]
]

-- With the flag that it returns.
unfoldable pub settle_resolving : Text → ℕ → Bool → MpcRecovery → MpcRecovery × Bool
unfolding set_phase resolving_owner
settle_resolving account round done s = elim (lookup account s.accounts) [
  | none ↦ (s, false)
  | some entry ↦ elim (resolving_owner entry.phase round) [
    | none ↦ (s, false)
    | some new_owner ↦
        (set_phase account entry (if done then idle else approved new_owner round) s, true)
  ]
]

unfoldable pub on_aborted : Text → ℕ → Bool → MpcRecovery → MpcRecovery
unfolding settle_resolving
on_aborted account round succeeded s = (settle_resolving account round succeeded s).0

-- The signature is JSON, here its text, `none` for a `PromiseError`; the result is the pair of them.
unfoldable pub on_add_key_signed :
    Text → ℕ → Text → Option Text → MpcRecovery → MpcRecovery × Option (Text × Text)
unfolding settle_resolving
on_add_key_signed account round signed_tx_hash mpc_signature s =
    let (s', reverted) = settle_resolving account round false s in
    (
      s',
      elim mpc_signature [
        | none ↦ none
        | some signature ↦ if reverted then some (signed_tx_hash, signature) else none
      ],
    )

unfoldable pub claim_native_finalized : Host → Text → ℕ → MpcRecovery → Outcome MpcRecovery
unfolding set_phase
claim_native_finalized env account round s = do
  ensure (text_eq env.predecessor s.owner) only_owner
  entry ← ok_or (lookup account s.accounts) no_policy
  ensure (is_native entry.policy.target) not_native
  pending ← as_approved entry.phase
  ensure (pending.1 == round) not_approved
  ok (set_phase account entry idle s)
