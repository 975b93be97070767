-- ===== src/Recovery/System.antt =====
-- contracts/mpc-recovery/src/lib.rs as a system: the public methods and the callbacks, in any order and
-- with any results.
use hos_tla_contracts.Recovery.Opening
use hos_tla_contracts.Recovery.Deciding
use hos_tla_contracts.Base.{Bool, List, Option, Text, err, ok, ℕ, ◌≡◌}
use hos_tla_contracts.Host.{Host, PublicKey}
use hos_tla_contracts.Recovery.Errors.{Outcome}
use hos_tla_contracts.Recovery.Types.{MpcRecovery, RecoveryLib, Target, WatcherSignature}

pub data RecoveryMethod : Type 0 where
  install_policy :
      (account : Text) (target : Target) (attestation_key : PublicKey) (timelock_secs : ℕ)
      → RecoveryMethod
  request_recovery :
      (account : Text) (new_owner : PublicKey) (round : ℕ) (attestation : Text) → RecoveryMethod
  submit_verdict :
      (account : Text) (silent : Bool) (signatures : List WatcherSignature) → RecoveryMethod
  finalize_recovery : (account : Text) (nonce : ℕ) (block_hash : Text) → RecoveryMethod
  abort_recovery on_wallet_transferred : (account : Text) → RecoveryMethod
  claim_native_finalized : (account : Text) (round : ℕ) → RecoveryMethod
  on_frozen on_aborted : (account : Text) (round : ℕ) (succeeded : Bool) → RecoveryMethod
  on_finalized : (account : Text) (round : ℕ) (result : Option Bool) → RecoveryMethod
  on_signed :
      (account : Text) (round : ℕ) (signed_tx_hash : Text) (mpc_signature : Option Text)
      → RecoveryMethod

abbrev pub state_left : Outcome (MpcRecovery × Deciding.Sent) → Outcome MpcRecovery
state_left (ok (s, sent)) = ok s
state_left (err e) = err e

unfoldable pub run : RecoveryLib → Host → RecoveryMethod → MpcRecovery → Outcome MpcRecovery
run lib env (RecoveryMethod.install_policy a t k secs) s = Opening.install_policy env a t k secs s
run lib env (RecoveryMethod.request_recovery a k r sig) s =
    Opening.request_recovery lib env a k r sig s
run lib env (RecoveryMethod.submit_verdict a silent sigs) s =
    state_left (Deciding.submit_verdict lib env a silent sigs s)
run lib env (RecoveryMethod.finalize_recovery a n hash) s =
    state_left (Deciding.finalize_recovery lib env a n hash s)
run lib env (RecoveryMethod.abort_recovery a) s = state_left (Deciding.abort_recovery env a s)
run lib env (RecoveryMethod.on_wallet_transferred a) s = Opening.on_wallet_transferred env a s
run lib env (RecoveryMethod.claim_native_finalized a r) s =
    Deciding.claim_native_finalized env a r s
run lib env (RecoveryMethod.on_frozen a r done) s = ok (Deciding.on_frozen a r done s)
run lib env (RecoveryMethod.on_aborted a r done) s = ok (Deciding.on_aborted a r done s)
run lib env (RecoveryMethod.on_finalized a r result) s = ok (Deciding.on_finalized a r result s)
run lib env (RecoveryMethod.on_signed a r hash sig) s =
    ok (Deciding.on_add_key_signed a r hash sig s).0

-- The states that follow a state.
pub data Follows (lib : RecoveryLib) (s : MpcRecovery) : MpcRecovery → Type 0 where
  at_once : Follows lib s s
  after_call :
      {t u : MpcRecovery}
      → Follows lib s t
      → (env : Host) (m : RecoveryMethod) → run lib env m t ≡ ok u
      → Follows lib s u
