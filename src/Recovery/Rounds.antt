-- ===== src/Recovery/Rounds.antt =====
-- The rounds of an account never go back, so that an attestation serves once.
use hos_tla_contracts.Recovery.Opening
use hos_tla_contracts.Recovery.Deciding
use hos_tla_contracts.Base.{
  Bool, Bool-cases, List, Option-cases, Result-cases, Text, arith, inl, inr, insert, lookup,
  lookup-insert, lookup-remove, none, ok, or_else, refl, some, text_eq, text_eq_iff, text_eq_refl,
  ℕ, ◌+◌, ◌<◌, ◌≡◌, ◌≤◌,
}
use hos_tla_contracts.Host.{Host, PublicKey}
use hos_tla_contracts.Recovery.Quorum.{submit_verdict-Decides}
use hos_tla_contracts.Recovery.Types.{
  Account, MpcRecovery, Phase, Policy, RecoveryLib, Target, WatcherSignature, idle, requested,
  resolving,
}

-- The round that the account's next request must name, now or after a policy is installed.
abbrev pub next_round : Text → MpcRecovery → ℕ
next_round a s = elim (lookup a s.accounts) [
  | some e ↦ e.round
  | none ↦ or_else (lookup a s.round_floor) 0
]

-- A write of an entry for a present account that keeps its round.
pub written_round :
    (b a : Text) (entry next_entry : Account) (s s' : MpcRecovery)
    → lookup b s.accounts ≡ some entry
    → s' ≡ record s { accounts = insert b next_entry s.accounts }
    → entry.round ≤ next_entry.round
    → next_round a s ≤ next_round a s'
written_round b a entry next_entry s s' found written grows = elim (Bool-cases (text_eq b a)) [
  | inl same ↦ ground (arith, lookup-insert b a next_entry s.accounts, text_eq_iff b a)
  | inr differs ↦ ground (arith, lookup-insert b a next_entry s.accounts)
]

pub set_phase_round :
    (b a : Text) (entry : Account) (p : Phase) (s : MpcRecovery)
    → lookup b s.accounts ≡ some entry
    → next_round a s ≤ next_round a (Deciding.set_phase b entry p s)
unfolding Deciding.set_phase
set_phase_round b a entry p s found =
    written_round b a entry (record entry { phase = p }) s (Deciding.set_phase b entry p s) found
      refl (omega arith)

pub install_round :
    (env : Host) (b : Text) (target : Target) (k : PublicKey) (secs : ℕ) (a : Text)
    (s s' : MpcRecovery)
    → Opening.install_policy env b target k secs s ≡ ok s'
    → next_round a s ≤ next_round a s'
unfolding Opening.install_policy Opening.starting_round
install_round env b target k secs a s s' h = elim (Result-cases (Opening.starting_round b s)) [
  | inr (e, running) ↦ ground arith
  | inl (r, starts) ↦
      let policy : Policy = record { target = target; attestation_key = k; timelock_secs = secs } in
      let entry : Account = record { policy = policy; round = r; phase = idle } in
      let stored = lookup-insert b a entry s.accounts in
      let same = text_eq_iff b a in
      elim (Option-cases (lookup b s.accounts)) [
        | inl absent ↦ ground (arith, stored, same)
        | inr (old, found) ↦ ground (arith, stored, same)
      ]
]

pub request_inv :
    (lib : RecoveryLib) (env : Host) (b : Text) (k : PublicKey) (r : ℕ) (sig : Text)
    (s s' : MpcRecovery)
    → Opening.request_recovery lib env b k r sig s ≡ ok s'
    → (entry : Account) × (lookup b s.accounts ≡ some entry)
      × (r ≡ entry.round)
      × (s' ≡ record s {
        accounts =
            insert b
              (record entry {
                phase = requested k entry.round env.block_timestamp;
                round = entry.round + 1;
              })
              s.accounts;
      })
unfolding Opening.request_recovery
request_inv lib env b k r sig s s' h = elim (Option-cases (lookup b s.accounts)) [
  | inl unknown ↦ ground arith
  | inr (entry, found) ↦ (entry, found, ground arith, ground arith)
]

pub request_round :
    (lib : RecoveryLib) (env : Host) (b : Text) (k : PublicKey) (r : ℕ) (sig : Text) (a : Text)
    (s s' : MpcRecovery)
    → Opening.request_recovery lib env b k r sig s ≡ ok s'
    → (next_round a s ≤ next_round a s') × (next_round b s ≡ r) × (r < next_round b s')
request_round lib env b k r sig a s s' h =
    let (entry, found, named, written) = request_inv lib env b k r sig s s' h in
    let entry' = record entry {
      phase = requested k entry.round env.block_timestamp;
      round = entry.round + 1;
    } in
    let stored = lookup-insert b b entry' s.accounts in
    (
      written_round b a entry entry' s s' found written (omega arith),
      ground arith,
      ground (arith, stored, text_eq_refl b),
    )

pub transferred_round :
    (env : Host) (b a : Text) (s s' : MpcRecovery)
    → Opening.on_wallet_transferred env b s ≡ ok s'
    → next_round a s ≤ next_round a s'
unfolding Opening.on_wallet_transferred
transferred_round env b a s s' h = elim (Option-cases (lookup b s.accounts)) [
  | inl absent ↦ ground arith
  | inr (entry, found) ↦ ground (
    arith,
    lookup-remove b a s.accounts,
    lookup-insert b a entry.round s.round_floor,
    text_eq_iff b a,
  )
]

pub verdict_round :
    (lib : RecoveryLib) (env : Host) (b : Text) (silent : Bool) (sigs : List WatcherSignature)
    (a : Text) (s s' : MpcRecovery) (sent : Deciding.Sent)
    → Deciding.submit_verdict lib env b silent sigs s ≡ ok (s', sent)
    → next_round a s ≤ next_round a s'
verdict_round lib env b silent sigs a s s' sent h =
    let (entry, k, r, t, found, pending, late, quorum, left) =
      submit_verdict-Decides lib env b silent sigs s s' sent h in
    rw left (set_phase_round b a entry _ s found)

pub finalize_round :
    (lib : RecoveryLib) (env : Host) (b : Text) (n : ℕ) (hash : Text) (a : Text)
    (s s' : MpcRecovery) (sent : Deciding.Sent)
    → Deciding.finalize_recovery lib env b n hash s ≡ ok (s', sent)
    → next_round a s ≤ next_round a s'
unfolding Deciding.finalize_recovery
finalize_round lib env b n hash a s s' sent h = elim (Option-cases (lookup b s.accounts)) [
  | inl unknown ↦ ground arith
  | inr (entry, found) ↦ elim (Result-cases (Deciding.as_approved entry.phase)) [
    | inr (e, other) ↦ ground arith
    | inl (q, pending) ↦
        elim (Result-cases
          (Deciding.resolve_promise lib env b q.0 q.1 n hash entry.policy.target s)) [
            | inr (e, bad) ↦ ground arith
            | inl (promise, made) ↦
                written_round b a entry (record entry { phase = resolving q.0 q.1 }) s s' found
                  (ground arith) (omega arith)
          ]
  ]
]

pub abort_round :
    (env : Host) (b a : Text) (s s' : MpcRecovery) (sent : Deciding.Sent)
    → Deciding.abort_recovery env b s ≡ ok (s', sent)
    → next_round a s ≤ next_round a s'
unfolding Deciding.abort_recovery
abort_round env b a s s' sent h = elim (Option-cases (lookup b s.accounts)) [
  | inl unknown ↦ ground arith
  | inr (entry, found) ↦ elim (Result-cases (Deciding.abort_of b entry.phase entry.policy.target)) [
    | inr (e, other) ↦ ground arith
    | inl (q, aborted) ↦
        written_round b a entry (record entry { phase = q.0 }) s s' found (ground arith)
          (omega arith)
  ]
]

pub claim_round :
    (env : Host) (b : Text) (r : ℕ) (a : Text) (s s' : MpcRecovery)
    → Deciding.claim_native_finalized env b r s ≡ ok s'
    → next_round a s ≤ next_round a s'
unfolding Deciding.claim_native_finalized
claim_round env b r a s s' h = elim (Option-cases (lookup b s.accounts)) [
  | inl unknown ↦ ground arith
  | inr (entry, found) ↦
      written_round b a entry (record entry { phase = idle }) s s' found (ground arith)
        (omega arith)
]
