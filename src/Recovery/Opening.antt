-- ===== src/Recovery/Opening.antt =====
-- contracts/mpc-recovery/src/lib.rs: the policies, the request, and the reset when a wallet is sold.
use hos_tla_contracts.Base.{
  Bool, List, Option, Text, [], ensure, err, if◌then◌else◌, insert, leb, length, lookup, ltb, none,
  not, ok, ok_or, or_else, reject, remove, some, text_eq, true, u64_max, ℕ, ◌&&◌, ◌+◌, ◌==◌, ◌>>=◌,
  ◌>>◌, ◌∷◌,
}
use hos_tla_contracts.Common.Keys.{is_ed25519}
use hos_tla_contracts.Host.{Host, PublicKey}
use hos_tla_contracts.Recovery.Errors.{
  Outcome, attestation_not_ed25519, bad_attestation, bad_signature_len, bound_owner_not_ed25519,
  mpc_not_ed25519, new_owner_not_ed25519, no_policy, not_idle, only_owner, only_transfer_authority,
  overflow, stale_round, timelock_too_short,
}
use hos_tla_contracts.Recovery.Proof.{contains, request_message, verify}
use hos_tla_contracts.Recovery.Types.{
  Account, MpcRecovery, Policy, RecoveryLib, Target, idle, is_idle, is_native, is_resettable,
  native, requested, wallet,
}

abbrev pub min_timelock_secs : ℕ
min_timelock_secs = 60

abbrev pub ns_per_sec : ℕ
ns_per_sec = 1000000000

-- The watchers are ed25519 keys, none twice.
unfoldable pub are_watchers : List PublicKey → List PublicKey → Bool
unfolding is_ed25519 contains
are_watchers seen [] = true
are_watchers seen (w ∷ watchers) =
    is_ed25519 w && not (contains w seen) && are_watchers (w ∷ seen) watchers

-- `none` where a `require!` fails.
unfoldable pub new : Text → Text → Text → List PublicKey → ℕ → Option MpcRecovery
unfolding are_watchers
new owner signer transfer_authority watchers threshold =
    if ltb 0 threshold && leb threshold (length watchers) && are_watchers [] watchers
    then some (record {
      owner = owner;
      signer = signer;
      transfer_authority = transfer_authority;
      watchers = watchers;
      threshold = threshold;
      accounts = [];
      round_floor = [];
    })
    else none

unfoldable pub check_target : Target → Outcome (Unit {0})
unfolding is_ed25519
check_target (native mpc_public_key) = ensure (is_ed25519 mpc_public_key) mpc_not_ed25519
check_target (wallet active_signer bound_owner) =
    ensure (is_ed25519 bound_owner) bound_owner_not_ed25519

-- The round of a new policy, where the old one is idle or there is none.
unfoldable pub starting_round : Text → MpcRecovery → Outcome ℕ
unfolding is_idle
starting_round account s = elim (lookup account s.accounts) [
  | some existing ↦ if is_idle existing.phase then ok existing.round else err not_idle
  | none ↦ ok (or_else (lookup account s.round_floor) 0)
]

unfoldable pub install_policy :
    Host → Text → Target → PublicKey → ℕ → MpcRecovery → Outcome MpcRecovery
unfolding is_ed25519 starting_round
install_policy env account target attestation_key timelock_secs s = do
  ensure (text_eq env.predecessor s.owner) only_owner
  ensure (leb min_timelock_secs timelock_secs) timelock_too_short
  ensure (is_ed25519 attestation_key) attestation_not_ed25519
  check_target target
  round ← starting_round account s
  let policy : Policy = record {
    target = target;
    attestation_key = attestation_key;
    timelock_secs = timelock_secs;
  }
  let entry : Account = record { policy = policy; round = round; phase = idle }
  ok (record s { accounts = insert account entry s.accounts })

-- `into_sig`
abbrev pub into_sig : Text → Outcome Text
into_sig bytes = if length bytes == 64 then ok bytes else err bad_signature_len

unfoldable pub request_recovery :
    RecoveryLib → Host → Text → PublicKey → ℕ → Text → MpcRecovery → Outcome MpcRecovery
unfolding is_idle is_native is_ed25519
request_recovery lib env account new_owner round attestation s = do
  entry ← ok_or (lookup account s.accounts) no_policy
  ensure (is_idle entry.phase) not_idle
  ensure (round == entry.round) stale_round
  if is_native entry.policy.target
      then ok tt
      else ensure (is_ed25519 new_owner) new_owner_not_ed25519
  let message = request_message env.current_account account new_owner entry.round
  signature ← into_sig attestation
  ensure (verify lib message signature entry.policy.attestation_key) bad_attestation
  reject (ltb u64_max (entry.round + 1)) overflow
  let entry' : Account = record entry {
    phase = requested new_owner entry.round env.block_timestamp;
    round = entry.round + 1;
  }
  ok (record s { accounts = insert account entry' s.accounts })

unfoldable pub on_wallet_transferred : Host → Text → MpcRecovery → Outcome MpcRecovery
unfolding is_resettable
on_wallet_transferred env account s = do
  ensure (text_eq env.predecessor s.transfer_authority) only_transfer_authority
  elim (lookup account s.accounts) [
    | none ↦ ok s
    | some entry ↦
        if is_resettable entry.phase
        then ok (record s {
          round_floor = insert account entry.round s.round_floor;
          accounts = remove account s.accounts;
        })
        else ok s
  ]
