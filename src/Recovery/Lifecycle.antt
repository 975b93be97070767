-- ===== src/Recovery/Lifecycle.antt =====
-- The recovery as a whole follows the state machine of the phases.
use hos_tla_contracts.Recovery.Deciding
use hos_tla_contracts.Recovery.System
use hos_tla_contracts.Base.{
  Bool, Bool-cases, Option, Option-cases, Result-cases, Text, arith, err, false, if◌then◌else◌, inl,
  inr, insert, lookup, none, ok, refl, some, true, ℕ, ◌==◌, ◌≡◌, ◌⊎◌,
}
use hos_tla_contracts.Host.{Host, PublicKey}
use hos_tla_contracts.Recovery.Errors.{Outcome}
use hos_tla_contracts.Recovery.Finalizing.{left_of}
use hos_tla_contracts.Recovery.PhaseRuns.{
  claim-Moves, finalize-Moves, install-Moves, request-Moves, transferred-Moves, verdict-Moves,
}
use hos_tla_contracts.Recovery.Phases.{
  Moves, cancels, closes, freezes, freezes_not, phase_of, reopens, resolves, set_phase-Moves,
  settles, unmoved, written-Moves,
}
use hos_tla_contracts.Recovery.System.{RecoveryMethod, state_left}
use hos_tla_contracts.Recovery.Types.{
  Account, MpcRecovery, Phase, RecoveryLib, Target, approved, approving, idle, native, requested,
  resolving, resolving_owner, wallet,
}

aborted :
    (b : Text) (p q : Phase) (target : Target) (sent : Deciding.Sent)
    → Deciding.abort_of b p target ≡ ok (q, sent)
    → Moves (some p) (some q)
unfolding Deciding.abort_of
aborted b (requested k r t) q target sent h =
    let same : q ≡ idle = ground arith in rw same (cancels k r t)
aborted b (approved k r) q (native mpc) sent h =
    let same : q ≡ idle = ground arith in rw same (closes k r)
aborted b (approved k r) q (wallet active_signer bound_owner) sent h =
    let same : q ≡ resolving k r = ground arith in rw same (resolves k r)
aborted b idle q target sent h = cc
aborted b (approving k r) q target sent h = cc
aborted b (resolving k r) q target sent h = cc

abort-Moves :
    (env : Host) (b a : Text) (s s' : MpcRecovery) (sent : Deciding.Sent)
    → Deciding.abort_recovery env b s ≡ ok (s', sent)
    → Moves (phase_of a s) (phase_of a s')
unfolding Deciding.abort_recovery
abort-Moves env b a s s' sent h = elim (Option-cases (lookup b s.accounts)) [
  | inl unknown ↦ ground arith
  | inr (entry, found) ↦ elim (Result-cases (Deciding.abort_of b entry.phase entry.policy.target)) [
    | inr (e, other) ↦ ground arith
    | inl ((q, asked), stopped) ↦
        written-Moves b a entry (record entry { phase = q }) s s' found (ground arith)
          (aborted b entry.phase q entry.policy.target asked stopped)
  ]
]

-- A freeze settles the approving phase of its round, and no other.
frozen_cases :
    (b : Text) (round : ℕ) (succeeded : Bool) (s : MpcRecovery) (entry : Account) (p : Phase)
    → lookup b s.accounts ≡ some entry
    → entry.phase ≡ p
    → (Deciding.on_frozen b round succeeded s ≡ s)
      ⊎ ((k : PublicKey) × (p ≡ approving k round)
          × (Deciding.on_frozen b round succeeded s
              ≡ Deciding.set_phase b entry (if succeeded then approved k round else idle) s))
unfolding Deciding.on_frozen
frozen_cases b round succeeded s entry idle found at = inl (ground arith)
frozen_cases b round succeeded s entry (requested k r t) found at = inl (ground arith)
frozen_cases b round succeeded s entry (approving k r) found at = elim (Bool-cases (r == round)) [
  | inl same ↦ inr (k, ground arith, ground arith)
  | inr other ↦ inl (ground arith)
]
frozen_cases b round succeeded s entry (approved k r) found at = inl (ground arith)
frozen_cases b round succeeded s entry (resolving k r) found at = inl (ground arith)

settled_freeze :
    (succeeded : Bool) (k : PublicKey) (r : ℕ)
    → Moves (some (approving k r)) (some (if succeeded then approved k r else idle))
settled_freeze true k r = freezes k r
settled_freeze false k r = freezes_not k r

frozen-Moves :
    (b : Text) (round : ℕ) (succeeded : Bool) (a : Text) (s : MpcRecovery)
    → Moves (phase_of a s) (phase_of a (Deciding.on_frozen b round succeeded s))
unfolding Deciding.on_frozen
frozen-Moves b round succeeded a s = elim (Option-cases (lookup b s.accounts)) [
  | inl absent ↦ unmoved a s (Deciding.on_frozen b round succeeded s) (ground arith)
  | inr (entry, found) ↦ elim (frozen_cases b round succeeded s entry entry.phase found refl) [
    | inl same ↦ unmoved a s (Deciding.on_frozen b round succeeded s) same
    | inr (k, phase, left) ↦ rw left (
        set_phase-Moves b a entry (if succeeded then approved k round else idle) s found
          (rw phase (settled_freeze succeeded k round)))
  ]
]

owner_inv :
    (p : Phase) (round : ℕ) (k : PublicKey)
    → resolving_owner p round ≡ some k
    → p ≡ resolving k round
unfolding resolving_owner
owner_inv idle round k h = cc
owner_inv (requested k' r t) round k h = cc
owner_inv (approving k' r) round k h = cc
owner_inv (approved k' r) round k h = cc
owner_inv (resolving k' r) round k h = ground arith

settled_swap :
    (done : Bool) (k : PublicKey) (r : ℕ)
    → Moves (some (resolving k r)) (some (if done then idle else approved k r))
settled_swap true k r = settles k r
settled_swap false k r = reopens k r

resolved-Moves :
    (b : Text) (round : ℕ) (done : Bool) (a : Text) (s : MpcRecovery)
    → Moves (phase_of a s) (phase_of a (Deciding.settle_resolving b round done s).0)
unfolding Deciding.settle_resolving
resolved-Moves b round done a s = elim (Option-cases (lookup b s.accounts)) [
  | inl absent ↦ unmoved a s (Deciding.settle_resolving b round done s).0 (ground arith)
  | inr (entry, found) ↦ elim (Option-cases (resolving_owner entry.phase round)) [
    | inl other ↦ unmoved a s (Deciding.settle_resolving b round done s).0 (ground arith)
    | inr (k, open_for) ↦
        let left : (Deciding.settle_resolving b round done s).0
            ≡ Deciding.set_phase b entry (if done then idle else approved k round) s =
          ground arith in
        rw left (
          set_phase-Moves b a entry (if done then idle else approved k round) s found
            (rw (owner_inv entry.phase round k open_for) (settled_swap done k round)))
  ]
]

finalized_step :
    (entry : Account) (k : PublicKey) (r : ℕ) (result : Option Bool)
    → Moves (some (resolving k r)) (some (left_of entry k r result).phase)
finalized_step entry k r (some true) = settles k r
finalized_step entry k r (some false) = settles k r
finalized_step entry k r none = reopens k r

finalized_write :
    (b : Text) (round : ℕ) (k : PublicKey) (result : Option Bool) (entry : Account)
    (s : MpcRecovery)
    → lookup b s.accounts ≡ some entry
    → resolving_owner entry.phase round ≡ some k
    → Deciding.on_finalized b round result s
      ≡ record s { accounts = insert b (left_of entry k round result) s.accounts }
unfolding Deciding.on_finalized
finalized_write b round k (some true) entry s found open_for = ground arith
finalized_write b round k (some false) entry s found open_for = ground arith
finalized_write b round k none entry s found open_for = ground arith

finalized-Moves :
    (b : Text) (round : ℕ) (result : Option Bool) (a : Text) (s : MpcRecovery)
    → Moves (phase_of a s) (phase_of a (Deciding.on_finalized b round result s))
unfolding Deciding.on_finalized
finalized-Moves b round result a s = elim (Option-cases (lookup b s.accounts)) [
  | inl absent ↦ unmoved a s (Deciding.on_finalized b round result s) (ground arith)
  | inr (entry, found) ↦ elim (Option-cases (resolving_owner entry.phase round)) [
    | inl other ↦ unmoved a s (Deciding.on_finalized b round result s) (ground arith)
    | inr (k, open_for) ↦
        written-Moves b a entry (left_of entry k round result) s
          (Deciding.on_finalized b round result s) found
          (finalized_write b round k result entry s found open_for)
          (rw (owner_inv entry.phase round k open_for) (finalized_step entry k round result))
  ]
]

state_inv :
    (r : Outcome (MpcRecovery × Deciding.Sent)) (s' : MpcRecovery)
    → state_left r ≡ ok s'
    → (sent : Deciding.Sent) × (r ≡ ok (s', sent))
state_inv (ok (s, sent)) s' h = (sent, ground arith)
state_inv (err e) s' h = cc

-- Every call or callback that goes through leaves the phase of any account as it is or moves it
-- along the state machine of a recovery: a policy starts idle; a request opens an idle account; a
-- request is confirmed or approved for the same owner and round, or closed; a confirmed one is
-- approved or closed; an approved one is resolved or closed; a resolving one is closed or
-- approved again, for the same owner and round; and only an idle or a requested account can lose
-- its policy.
pub run-Moves :
    (lib : RecoveryLib) (env : Host) (m : RecoveryMethod) (s s' : MpcRecovery) (a : Text)
    → System.run lib env m s ≡ ok s'
    → Moves (phase_of a s) (phase_of a s')
unfolding System.run Deciding.on_aborted Deciding.on_add_key_signed
run-Moves lib env (RecoveryMethod.install_policy b t k secs) s s' a h =
    install-Moves env b t k secs a s s' h
run-Moves lib env (RecoveryMethod.request_recovery b k r sig) s s' a h =
    request-Moves lib env b k r sig a s s' h
run-Moves lib env (RecoveryMethod.submit_verdict b silent sigs) s s' a h =
    let (sent, made) = state_inv (Deciding.submit_verdict lib env b silent sigs s) s' h in
    verdict-Moves lib env b silent sigs a s s' sent made
run-Moves lib env (RecoveryMethod.finalize_recovery b n hash) s s' a h =
    let (sent, made) = state_inv (Deciding.finalize_recovery lib env b n hash s) s' h in
    finalize-Moves lib env b n hash a s s' sent made
run-Moves lib env (RecoveryMethod.abort_recovery b) s s' a h =
    let (sent, made) = state_inv (Deciding.abort_recovery env b s) s' h in
    abort-Moves env b a s s' sent made
run-Moves lib env (RecoveryMethod.on_wallet_transferred b) s s' a h =
    transferred-Moves env b a s s' h
run-Moves lib env (RecoveryMethod.claim_native_finalized b r) s s' a h =
    claim-Moves env b r a s s' h
run-Moves lib env (RecoveryMethod.on_frozen b r succeeded) s s' a h =
    let same : Deciding.on_frozen b r succeeded s ≡ s' = ground arith in
    rw (← same) (frozen-Moves b r succeeded a s)
run-Moves lib env (RecoveryMethod.on_aborted b r succeeded) s s' a h =
    let same : (Deciding.settle_resolving b r succeeded s).0 ≡ s' = ground arith in
    rw (← same) (resolved-Moves b r succeeded a s)
run-Moves lib env (RecoveryMethod.on_finalized b r result) s s' a h =
    let same : Deciding.on_finalized b r result s ≡ s' = ground arith in
    rw (← same) (finalized-Moves b r result a s)
run-Moves lib env (RecoveryMethod.on_signed b r hash sig) s s' a h =
    let same : (Deciding.settle_resolving b r false s).0 ≡ s' = ground arith in
    rw (← same) (resolved-Moves b r false a s)
