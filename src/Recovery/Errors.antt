-- ===== src/Recovery/Errors.antt =====
-- contracts/mpc-recovery/src/error.rs: the messages that a call panics with. The last two are those of
-- a checked sum that overflows and of crates/hos-common.
use hos_tla_contracts.Base.{Result}

pub data RecoveryError : Type 0 where
  only_owner : RecoveryError
  only_transfer_authority : RecoveryError
  no_policy : RecoveryError
  not_idle : RecoveryError
  not_requested : RecoveryError
  not_approved : RecoveryError
  not_native : RecoveryError
  not_active : RecoveryError
  stale_round : RecoveryError
  bad_attestation : RecoveryError
  timelock_not_elapsed : RecoveryError
  no_quorum : RecoveryError
  bad_signature_len : RecoveryError
  timelock_too_short : RecoveryError
  mpc_not_ed25519 : RecoveryError
  attestation_not_ed25519 : RecoveryError
  bound_owner_not_ed25519 : RecoveryError
  new_owner_not_ed25519 : RecoveryError
  overflow : RecoveryError
  owner_not_ed25519 : RecoveryError

abbrev pub Outcome : Type 0 → Type 0
Outcome A = Result RecoveryError A
