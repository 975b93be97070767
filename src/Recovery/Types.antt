-- ===== src/Recovery/Types.antt =====
-- contracts/mpc-recovery/src/state.rs, and the state of lib.rs.
use hos_tla_contracts.Base.{
  Bool, Dict, List, Option, Text, false, if◌then◌else◌, none, some, true, ℕ, ◌==◌,
}
use hos_tla_contracts.Host.{PublicKey}

pub data Target : Type 0 where
  native : (mpc_public_key : PublicKey) → Target
  wallet : (active_signer : Text) (bound_owner : PublicKey) → Target

pub record Policy : Type 0 where
  pub target : Target
  pub attestation_key : PublicKey
  pub timelock_secs : ℕ

pub data Phase : Type 0 where
  idle : Phase
  requested : (new_owner : PublicKey) (round requested_at : ℕ) → Phase
  approving approved resolving : (new_owner : PublicKey) (round : ℕ) → Phase

-- `matches!(phase, Phase::Idle)`
unfoldable pub is_idle : Phase → Bool
is_idle idle = true
is_idle (requested k r t) = false
is_idle (approving k r) = false
is_idle (approved k r) = false
is_idle (resolving k r) = false

-- `matches!(account.phase, Phase::Idle | Phase::Requested { .. })`
unfoldable pub is_resettable : Phase → Bool
is_resettable idle = true
is_resettable (requested k r t) = true
is_resettable (approving k r) = false
is_resettable (approved k r) = false
is_resettable (resolving k r) = false

-- `matches!(target, Target::Native { .. })`
unfoldable pub is_native : Target → Bool
is_native (native k) = true
is_native (wallet a k) = false

unfoldable pub resolving_owner : Phase → ℕ → Option PublicKey
resolving_owner (resolving k r) round = if r == round then some k else none
resolving_owner idle round = none
resolving_owner (requested k r t) round = none
resolving_owner (approving k r) round = none
resolving_owner (approved k r) round = none

pub record Account : Type 0 where
  pub policy : Policy
  pub round : ℕ
  pub phase : Phase

pub record MpcRecovery : Type 0 where
  pub owner : Text
  pub signer : Text
  pub transfer_authority : Text
  pub watchers : List PublicKey
  pub threshold : ℕ
  pub accounts : Dict Account
  pub round_floor : Dict ℕ

-- What the contract calls of ed25519_dalek and of the host.
pub record RecoveryLib : Type 0 where
  -- `VerifyingKey::from_bytes(key).map(is_weak)`, `none` for an error
  pub is_weak : Text → Option Bool
  -- `env::ed25519_verify`
  pub ed25519_verify : (signature message public_key : Text) → Bool
  -- `env::sha256`
  pub sha256 : Text → Text

-- A watcher's signature: the bytes as the call gives them.
pub record WatcherSignature : Type 0 where
  pub public_key : PublicKey
  pub signature : Text
