-- ===== src/Recovery/PhaseRuns.antt =====
-- Every call and callback of the recovery follows the state machine of the phases.
use hos_tla_contracts.Recovery.Opening
use hos_tla_contracts.Recovery.Deciding
use hos_tla_contracts.Base.{
  Bool, Bool-cases, List, Option-cases, Result-cases, Text, arith, false, if◌then◌else◌, inl, inr,
  lookup, lookup-insert, lookup-remove, none, ok, refl, some, text_eq, text_eq_iff, true, ℕ, ◌+◌,
  ◌≡◌,
}
use hos_tla_contracts.Host.{Host, PublicKey}
use hos_tla_contracts.Recovery.Finalizing.{approved_inv}
use hos_tla_contracts.Recovery.Phases.{
  Moves, along, asks, cancels, closes, confirms, confirms_native, installs, leaves_idle,
  leaves_requested, phase_of, resolves, set_phase-Moves, stays, unmoved, written-Moves,
}
use hos_tla_contracts.Recovery.Quorum.{submit_verdict-Decides}
use hos_tla_contracts.Recovery.Rounds.{request_inv}
use hos_tla_contracts.Recovery.Types.{
  Account, MpcRecovery, Phase, Policy, RecoveryLib, Target, WatcherSignature, approved, approving,
  idle, is_idle, is_native, is_resettable, requested, resolving,
}

idle_inv : (p : Phase) → is_idle p ≡ true → p ≡ idle
unfolding is_idle
idle_inv idle h = refl
idle_inv (requested k r t) h = cc
idle_inv (approving k r) h = cc
idle_inv (approved k r) h = cc
idle_inv (resolving k r) h = cc

resettable_leaves : (p : Phase) → is_resettable p ≡ true → Moves (some p) none
unfolding is_resettable
resettable_leaves idle h = leaves_idle
resettable_leaves (requested k r t) h = leaves_requested k r t
resettable_leaves (approving k r) h = cc
resettable_leaves (approved k r) h = cc
resettable_leaves (resolving k r) h = cc

decided :
    (silent is_native_target : Bool) (k : PublicKey) (r t : ℕ)
    → Moves
        (some (requested k r t))
        (some (if silent then (if is_native_target then approved k r else approving k r) else idle))
decided true true k r t = confirms_native k r t
decided true false k r t = confirms k r t
decided false n k r t = cancels k r t

asked :
    (lib : RecoveryLib) (env : Host) (b : Text) (k : PublicKey) (r : ℕ) (sig : Text)
    (entry : Account) (s s' : MpcRecovery)
    → lookup b s.accounts ≡ some entry
    → Opening.request_recovery lib env b k r sig s ≡ ok s'
    → is_idle entry.phase ≡ true
unfolding Opening.request_recovery
asked lib env b k r sig entry s s' found h = ground arith

pub install-Moves :
    (env : Host) (b : Text) (target : Target) (k : PublicKey) (secs : ℕ) (a : Text)
    (s s' : MpcRecovery)
    → Opening.install_policy env b target k secs s ≡ ok s'
    → Moves (phase_of a s) (phase_of a s')
unfolding Opening.install_policy Opening.starting_round
install-Moves env b target k secs a s s' h = elim (Result-cases (Opening.starting_round b s)) [
  | inr (e, running) ↦ ground arith
  | inl (r, starts) ↦
      let policy : Policy = record { target = target; attestation_key = k; timelock_secs = secs } in
      let entry : Account = record { policy = policy; round = r; phase = idle } in
      elim (Option-cases (lookup b s.accounts)) [
        | inl absent ↦ elim (Bool-cases (text_eq b a)) [
          | inl same ↦
              along a s s' none (some idle) (ground (arith, text_eq_iff b a))
                (ground (arith, lookup-insert b a entry s.accounts)) installs
          | inr differs ↦
              along a s s' (phase_of a s) (phase_of a s) refl
                (ground (arith, lookup-insert b a entry s.accounts)) (stays (phase_of a s))
        ]
        | inr (old, found) ↦
            written-Moves b a old entry s s' found (ground arith)
              (rw (idle_inv old.phase (ground arith)) (stays (some idle)))
      ]
]

pub request-Moves :
    (lib : RecoveryLib) (env : Host) (b : Text) (k : PublicKey) (r : ℕ) (sig : Text) (a : Text)
    (s s' : MpcRecovery)
    → Opening.request_recovery lib env b k r sig s ≡ ok s'
    → Moves (phase_of a s) (phase_of a s')
request-Moves lib env b k r sig a s s' h =
    let (entry, found, named, written) = request_inv lib env b k r sig s s' h in
    written-Moves b a entry
      (record entry {
        phase = requested k entry.round env.block_timestamp;
        round = entry.round + 1;
      })
      s s' found written
      (rw (idle_inv entry.phase (asked lib env b k r sig entry s s' found h))
        (asks k entry.round env.block_timestamp))

pub transferred-Moves :
    (env : Host) (b a : Text) (s s' : MpcRecovery)
    → Opening.on_wallet_transferred env b s ≡ ok s'
    → Moves (phase_of a s) (phase_of a s')
unfolding Opening.on_wallet_transferred
transferred-Moves env b a s s' h = elim (Option-cases (lookup b s.accounts)) [
  | inl absent ↦ unmoved a s s' (ground arith)
  | inr (entry, found) ↦ elim (Bool-cases (is_resettable entry.phase)) [
    | inr open_round ↦ unmoved a s s' (ground arith)
    | inl resettable ↦ elim (Bool-cases (text_eq b a)) [
      | inl same ↦
          along a s s' (some entry.phase) none (ground (arith, text_eq_iff b a))
            (ground (arith, lookup-remove b a s.accounts))
            (resettable_leaves entry.phase resettable)
      | inr differs ↦
          along a s s' (phase_of a s) (phase_of a s) refl
            (ground (arith, lookup-remove b a s.accounts)) (stays (phase_of a s))
    ]
  ]
]

pub verdict-Moves :
    (lib : RecoveryLib) (env : Host) (b : Text) (silent : Bool) (sigs : List WatcherSignature)
    (a : Text) (s s' : MpcRecovery) (sent : Deciding.Sent)
    → Deciding.submit_verdict lib env b silent sigs s ≡ ok (s', sent)
    → Moves (phase_of a s) (phase_of a s')
verdict-Moves lib env b silent sigs a s s' sent h =
    let (entry, k, r, t, found, pending, late, quorum, left) =
      submit_verdict-Decides lib env b silent sigs s s' sent h in
    rw left (
      set_phase-Moves b a entry _ s found
        (rw pending (decided silent (is_native entry.policy.target) k r t)))

pub finalize-Moves :
    (lib : RecoveryLib) (env : Host) (b : Text) (n : ℕ) (hash : Text) (a : Text)
    (s s' : MpcRecovery) (sent : Deciding.Sent)
    → Deciding.finalize_recovery lib env b n hash s ≡ ok (s', sent)
    → Moves (phase_of a s) (phase_of a s')
unfolding Deciding.finalize_recovery
finalize-Moves lib env b n hash a s s' sent h = elim (Option-cases (lookup b s.accounts)) [
  | inl unknown ↦ ground arith
  | inr (entry, found) ↦ elim (Result-cases (Deciding.as_approved entry.phase)) [
    | inr (e, other) ↦ ground arith
    | inl ((k, r), pending) ↦
        elim (Result-cases (Deciding.resolve_promise lib env b k r n hash entry.policy.target s)) [
          | inr (e, bad) ↦ ground arith
          | inl (promise, made) ↦
              written-Moves b a entry (record entry { phase = resolving k r }) s s' found
                (ground arith) (rw (approved_inv entry.phase k r pending) (resolves k r))
        ]
  ]
]

pub claim-Moves :
    (env : Host) (b : Text) (r : ℕ) (a : Text) (s s' : MpcRecovery)
    → Deciding.claim_native_finalized env b r s ≡ ok s'
    → Moves (phase_of a s) (phase_of a s')
unfolding Deciding.claim_native_finalized
claim-Moves env b r a s s' h = elim (Option-cases (lookup b s.accounts)) [
  | inl unknown ↦ ground arith
  | inr (entry, found) ↦ elim (Result-cases (Deciding.as_approved entry.phase)) [
    | inr (e, other) ↦ ground arith
    | inl ((k, r'), pending) ↦
        written-Moves b a entry (record entry { phase = idle }) s s' found (ground arith)
          (rw (approved_inv entry.phase k r' pending) (closes k r'))
  ]
]
