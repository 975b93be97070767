-- ===== src/Network/Recoveries.antt =====
-- The calls that contracts/mpc-recovery makes of contracts/active-signer, with the callbacks that settle
-- them.
use hos_tla_contracts.Signer.Owners
use hos_tla_contracts.Recovery.Deciding
use hos_tla_contracts.Base.{err, false, none, ok, some, true}
use hos_tla_contracts.Host.{Host}
use hos_tla_contracts.Recovery.Deciding.{
  RecoveryCall, RecoveryCallback, aborted_back, calls_freeze, calls_swap_owner, calls_unfreeze,
  finalized_back, frozen_back,
}
use hos_tla_contracts.Recovery.Types.{MpcRecovery}
use hos_tla_contracts.Signer.Types.{ActiveSigner, SignerLib}

module _ {Nonces : Type 0} (lib : SignerLib Nonces) (env : Host) where
  -- A call of the signer and its callback. The call of the MPC network is not the signer's.
  unfoldable pub settle_call :
      RecoveryCall × RecoveryCallback
      → MpcRecovery
      → ActiveSigner Nonces
      → MpcRecovery × ActiveSigner Nonces
  settle_call
        (
          calls_swap_owner active_signer account new_public_key expected,
          finalized_back target round,
        )
        r s =
      elim (Owners.swap_owner lib env account new_public_key (some expected) s) [
        | ok (s', swapped) ↦ (Deciding.on_finalized target round (some swapped) r, s')
        | err e ↦ (Deciding.on_finalized target round none r, s)
      ]
  settle_call (calls_freeze active_signer account expected, frozen_back target round) r s =
      elim (Owners.freeze lib env account (some expected) s) [
        | ok s' ↦ (Deciding.on_frozen target round true r, s')
        | err e ↦ (Deciding.on_frozen target round false r, s)
      ]
  settle_call (calls_unfreeze active_signer account, aborted_back target round) r s =
      elim (Owners.unfreeze lib env account s) [
        | ok s' ↦ (Deciding.on_aborted target round true r, s')
        | err e ↦ (Deciding.on_aborted target round false r, s)
      ]
  settle_call _ r s = (r, s)
