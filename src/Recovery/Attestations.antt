-- ===== src/Recovery/Attestations.antt =====
-- An attestation serves once: no request with the round of an earlier one is accepted again.
use hos_tla_contracts.Recovery.Opening
use hos_tla_contracts.Recovery.Deciding
use hos_tla_contracts.Base.{
  Bool, Option, Option-cases, Result-cases, Text, arith, err, false, if◌then◌else◌, inl, inr,
  insert, is_ok, lookup, ok, refl, some, ℕ, ◌≡◌, ◌≤◌,
}
use hos_tla_contracts.Host.{Host, PublicKey}
use hos_tla_contracts.Recovery.Errors.{Outcome}
use hos_tla_contracts.Recovery.Rounds.{
  abort_round, claim_round, finalize_round, install_round, next_round, request_round,
  set_phase_round, transferred_round, verdict_round, written_round,
}
use hos_tla_contracts.Recovery.System.{
  Follows, RecoveryMethod, after_call, at_once, run, state_left,
}
use hos_tla_contracts.Recovery.Types.{
  Account, MpcRecovery, Phase, RecoveryLib, approved, approving, idle, requested, resolving,
  resolving_owner,
}

frozen_entry_round :
    (b : Text) (r : ℕ) (done : Bool) (a : Text) (s : MpcRecovery) (entry : Account) (p : Phase)
    → lookup b s.accounts ≡ some entry
    → entry.phase ≡ p
    → next_round a s ≤ next_round a (Deciding.on_frozen b r done s)
unfolding Deciding.on_frozen
frozen_entry_round b r done a s entry idle found e = ground arith
frozen_entry_round b r done a s entry (requested k q t) found e = ground arith
frozen_entry_round b r done a s entry (approving k q) found e =
    ground (arith, set_phase_round b a entry (if done then approved k r else idle) s found)
frozen_entry_round b r done a s entry (approved k q) found e = ground arith
frozen_entry_round b r done a s entry (resolving k q) found e = ground arith

frozen_round :
    (b : Text) (r : ℕ) (done : Bool) (a : Text) (s : MpcRecovery)
    → next_round a s ≤ next_round a (Deciding.on_frozen b r done s)
unfolding Deciding.on_frozen
frozen_round b r done a s = elim (Option-cases (lookup b s.accounts)) [
  | inl unknown ↦ ground arith
  | inr (entry, found) ↦ frozen_entry_round b r done a s entry entry.phase found refl
]

settle_round :
    (b : Text) (r : ℕ) (done : Bool) (a : Text) (s : MpcRecovery)
    → next_round a s ≤ next_round a (Deciding.settle_resolving b r done s).0
unfolding Deciding.settle_resolving
settle_round b r done a s = elim (Option-cases (lookup b s.accounts)) [
  | inl unknown ↦ ground arith
  | inr (entry, found) ↦ elim (Option-cases (resolving_owner entry.phase r)) [
    | inl elsewhere ↦ ground arith
    | inr (k, resolved) ↦
        ground (arith, set_phase_round b a entry (if done then idle else approved k r) s found)
  ]
]

rebound_round :
    (b a : Text) (entry : Account) (k : PublicKey) (s : MpcRecovery)
    → lookup b s.accounts ≡ some entry
    → next_round a s
      ≤ next_round a (
          Deciding.set_phase b
            (record entry {
              policy = record entry.policy { target = Deciding.rebind k entry.policy.target };
            })
            idle
            s)
unfolding Deciding.set_phase
rebound_round b a entry k s found =
    let policy = record entry.policy { target = Deciding.rebind k entry.policy.target } in
    let entry' = record entry { policy = policy; phase = idle } in
    written_round b a entry entry' s (record s { accounts = insert b entry' s.accounts }) found refl
      (omega arith)

finalized_round :
    (b : Text) (r : ℕ) (result : Option Bool) (a : Text) (s : MpcRecovery)
    → next_round a s ≤ next_round a (Deciding.on_finalized b r result s)
unfolding Deciding.on_finalized
finalized_round b r result a s = elim (Option-cases (lookup b s.accounts)) [
  | inl unknown ↦ ground arith
  | inr (entry, found) ↦ elim (Option-cases (resolving_owner entry.phase r)) [
    | inl elsewhere ↦ ground arith
    | inr (k, resolved) ↦ ground (
      arith,
      set_phase_round b a entry idle s found,
      set_phase_round b a entry (approved k r) s found,
      rebound_round b a entry k s found,
    )
  ]
]

left_inv :
    (r : Outcome (MpcRecovery × Deciding.Sent)) (s' : MpcRecovery)
    → state_left r ≡ ok s'
    → (sent : Deciding.Sent) × (r ≡ ok (s', sent))
left_inv (ok (s, sent)) s' h = (sent, ground arith)
left_inv (err e) s' h = cc

run_round :
    (lib : RecoveryLib) (env : Host) (m : RecoveryMethod) (a : Text) (s s' : MpcRecovery)
    → run lib env m s ≡ ok s'
    → next_round a s ≤ next_round a s'
unfolding run Deciding.on_aborted Deciding.on_add_key_signed
run_round lib env (RecoveryMethod.install_policy b t k secs) a s s' h =
    install_round env b t k secs a s s' h
run_round lib env (RecoveryMethod.request_recovery b k r sig) a s s' h =
    (request_round lib env b k r sig a s s' h).0
run_round lib env (RecoveryMethod.submit_verdict b silent sigs) a s s' h =
    let (sent, done) = left_inv (Deciding.submit_verdict lib env b silent sigs s) s' h in
    verdict_round lib env b silent sigs a s s' sent done
run_round lib env (RecoveryMethod.finalize_recovery b n hash) a s s' h =
    let (sent, done) = left_inv (Deciding.finalize_recovery lib env b n hash s) s' h in
    finalize_round lib env b n hash a s s' sent done
run_round lib env (RecoveryMethod.abort_recovery b) a s s' h =
    let (sent, done) = left_inv (Deciding.abort_recovery env b s) s' h in
    abort_round env b a s s' sent done
run_round lib env (RecoveryMethod.on_wallet_transferred b) a s s' h =
    transferred_round env b a s s' h
run_round lib env (RecoveryMethod.claim_native_finalized b r) a s s' h =
    claim_round env b r a s s' h
run_round lib env (RecoveryMethod.on_frozen b r done) a s s' h =
    ground (arith, frozen_round b r done a s)
run_round lib env (RecoveryMethod.on_aborted b r done) a s s' h =
    ground (arith, settle_round b r done a s)
run_round lib env (RecoveryMethod.on_finalized b r result) a s s' h =
    ground (arith, finalized_round b r result a s)
run_round lib env (RecoveryMethod.on_signed b r hash sig) a s s' h =
    ground (arith, settle_round b r false a s)

follows_round :
    (lib : RecoveryLib) (a : Text) (s : MpcRecovery) {s' : MpcRecovery}
    → Follows lib s s'
    → next_round a s ≤ next_round a s'
follows_round lib a s at_once = omega arith
follows_round lib a s (after_call {t} {u} f env m h) =
    let before = follows_round lib a s f in let step = run_round lib env m a t u h in omega arith

-- Once a recovery request has been accepted for an account and a round, no request for that
-- account and round is accepted after any sequence of calls and callbacks, with any results, a
-- reset by a transfer of the wallet and a new policy included.
pub requested_once :
    (lib : RecoveryLib) (env env' : Host) (a : Text) (k k' : PublicKey) (round : ℕ)
    (sig sig' : Text) (s s' s'' : MpcRecovery)
    → Opening.request_recovery lib env a k round sig s ≡ ok s'
    → Follows lib s' s''
    → is_ok (Opening.request_recovery lib env' a k' round sig' s'') ≡ false
requested_once lib env env' a k k' round sig sig' s s' s'' h f =
    let (grows, named, passed) = request_round lib env a k round sig a s s' h in
    let later = follows_round lib a s' f in
    elim (Result-cases (Opening.request_recovery lib env' a k' round sig' s'')) [
      | inr (e, refused) ↦ ground arith
      | inl (s3, again) ↦
          let (grows', named', passed') = request_round lib env' a k' round sig' a s'' s3 again in
          absurd (omega (arith, passed, later, named'))
    ]
