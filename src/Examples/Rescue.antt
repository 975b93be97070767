-- ===== src/Examples/Rescue.antt =====
-- A recovery of a wallet at a concrete input: the new key 2 takes the place of the bound key 1.
use hos_tla_contracts.Recovery.Deciding
use hos_tla_contracts.Recovery.System
use hos_tla_contracts.Network.Rescue
use hos_tla_contracts.Base.{
  List, [], codes, err, lookup, ok, refl, some, strip_prefix, text_eq, ℕ, ◌∷◌, ◌≡◌, ◌⊎◌,
}
use hos_tla_contracts.Common.Keys.{ed25519_base58}
use hos_tla_contracts.Examples.Fixtures.{bob, call, key_of, shop_key}
use hos_tla_contracts.Examples.Recovery.{lenient, recovery}
use hos_tla_contracts.Examples.Signer.{alice_entry, signer, toy_lib}
use hos_tla_contracts.Host.{PublicKey}
use hos_tla_contracts.Network.Recoveries.{settle_call}
use hos_tla_contracts.Recovery.Errors.{Outcome}
use hos_tla_contracts.Recovery.Lifecycle.{run-Moves}
use hos_tla_contracts.Recovery.Phases.{Moves, phase_of}
use hos_tla_contracts.Recovery.System.{RecoveryMethod}
use hos_tla_contracts.Recovery.Types.{Account, MpcRecovery, Phase, Target, is_native}
use hos_tla_contracts.Signer.Types.{ActiveSigner, recovery_frozen}

abbrev approved_entry : Account
approved_entry = record {
  policy = record {
    target = Target.wallet (codes "signer") (key_of 1);
    attestation_key = key_of 3;
    timelock_secs = 60;
  };
  round = 5;
  phase = Phase.approved (key_of 2) 4;
}

abbrev approved_recovery : MpcRecovery
approved_recovery = record recovery { accounts = (shop_key, approved_entry) ∷ [] }

abbrev finalized : Outcome (MpcRecovery × Deciding.Sent)
finalized = Deciding.finalize_recovery lenient (call bob 0 10) shop_key 0 [] approved_recovery

abbrev resolving_recovery : MpcRecovery
resolving_recovery = elim finalized [ ok (r, sent) ↦ r | err e ↦ approved_recovery ]

abbrev swap_sent : Deciding.RecoveryCall × Deciding.RecoveryCallback
swap_sent = (
  Deciding.calls_swap_owner (codes "signer") shop_key (2 ∷ []) (1 ∷ []),
  Deciding.finalized_back shop_key 4,
)

finalized_ok :
    Deciding.finalize_recovery lenient (call bob 0 10) shop_key 0 [] approved_recovery
    ≡ ok (resolving_recovery, some swap_sent)
unfolding Deciding.finalize_recovery lookup text_eq Deciding.as_approved is_native
    Deciding.resolve_promise ed25519_base58 strip_prefix
finalized_ok = refl

approved_found : lookup shop_key approved_recovery.accounts ≡ some approved_entry
unfolding lookup text_eq
approved_found = refl

abbrev frozen_signer : ActiveSigner (List ℕ)
frozen_signer = record signer {
  signers = (shop_key, record alice_entry { public_key = 1 ∷ []; frozen = recovery_frozen }) ∷ [];
}

recovery_is_atomic_example :
    (new_owner : PublicKey) × (round : ℕ) × (approved_entry.phase ≡ Phase.approved new_owner round)
    × (Rescue.IsRecovered toy_lib
          (call bob 0 10)
          (codes "signer")
          shop_key
          approved_entry
          new_owner
          frozen_signer
          (settle_call toy_lib
            (call (codes "recovery") 0 11)
            swap_sent
            resolving_recovery
            frozen_signer)
        ⊎ Rescue.IsUnrecovered toy_lib shop_key approved_entry new_owner round frozen_signer (
            settle_call toy_lib
              (call (codes "recovery") 0 11)
              swap_sent
              resolving_recovery
              frozen_signer))
recovery_is_atomic_example =
    Rescue.recovery_is_atomic toy_lib lenient (call bob 0 10) (call (codes "recovery") 0 11)
      shop_key 0 [] (codes "signer") (key_of 1) approved_entry approved_recovery resolving_recovery
      swap_sent frozen_signer approved_found refl finalized_ok

abbrev finalizes : RecoveryMethod
finalizes = RecoveryMethod.finalize_recovery shop_key 0 []

finalizes_ok :
    System.run lenient (call bob 0 10) finalizes approved_recovery ≡ ok resolving_recovery
unfolding System.run Deciding.finalize_recovery lookup text_eq Deciding.as_approved is_native
    Deciding.resolve_promise ed25519_base58 strip_prefix
finalizes_ok = refl

run-Moves_example :
    Moves (phase_of shop_key approved_recovery) (phase_of shop_key resolving_recovery)
run-Moves_example =
    run-Moves lenient (call bob 0 10) finalizes approved_recovery resolving_recovery shop_key
      finalizes_ok
