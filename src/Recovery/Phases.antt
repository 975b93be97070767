-- ===== src/Recovery/Phases.antt =====
-- The phases of an account's recovery as a state machine, which every call and callback follows.
use hos_tla_contracts.Recovery.Deciding
use hos_tla_contracts.Base.{
  Bool-cases, Option, Text, arith, inl, inr, insert, lookup, lookup-insert, none, refl, some,
  text_eq, text_eq_iff, ℕ, ◌≡◌,
}
use hos_tla_contracts.Host.{PublicKey}
use hos_tla_contracts.Recovery.Types.{
  Account, MpcRecovery, Phase, approved, approving, idle, requested, resolving,
}

-- The phase of the account, if it has a policy.
abbrev pub phase_of : Text → MpcRecovery → Option Phase
phase_of a s = elim (lookup a s.accounts) [ none ↦ none | some e ↦ some e.phase ]

-- What may happen to it: the owner and the round of a request stay with it to the end.
pub data Moves : Option Phase → Option Phase → Type 0 where
  stays : (p : Option Phase) → Moves p p
  installs : Moves none (some idle)
  asks : (k : PublicKey) (r t : ℕ) → Moves (some idle) (some (requested k r t))
  cancels : (k : PublicKey) (r t : ℕ) → Moves (some (requested k r t)) (some idle)
  confirms : (k : PublicKey) (r t : ℕ) → Moves (some (requested k r t)) (some (approving k r))
  confirms_native : (k : PublicKey) (r t : ℕ) → Moves (some (requested k r t)) (some (approved k r))
  freezes : (k : PublicKey) (r : ℕ) → Moves (some (approving k r)) (some (approved k r))
  freezes_not : (k : PublicKey) (r : ℕ) → Moves (some (approving k r)) (some idle)
  resolves : (k : PublicKey) (r : ℕ) → Moves (some (approved k r)) (some (resolving k r))
  closes : (k : PublicKey) (r : ℕ) → Moves (some (approved k r)) (some idle)
  settles : (k : PublicKey) (r : ℕ) → Moves (some (resolving k r)) (some idle)
  reopens : (k : PublicKey) (r : ℕ) → Moves (some (resolving k r)) (some (approved k r))
  leaves_idle : Moves (some idle) none
  leaves_requested : (k : PublicKey) (r t : ℕ) → Moves (some (requested k r t)) none

pub along :
    (a : Text) (s s' : MpcRecovery) (p q : Option Phase)
    → phase_of a s ≡ p
    → phase_of a s' ≡ q
    → Moves p q
    → Moves (phase_of a s) (phase_of a s')
along a s s' p q from to moves = rw (from, to) moves

pub unmoved : (a : Text) (s s' : MpcRecovery) → s' ≡ s → Moves (phase_of a s) (phase_of a s')
unmoved a s s' same = rw same (stays (phase_of a s))

-- A write of the entry of a present account.
pub written-Moves :
    (b a : Text) (entry next_entry : Account) (s s' : MpcRecovery)
    → lookup b s.accounts ≡ some entry
    → s' ≡ record s { accounts = insert b next_entry s.accounts }
    → Moves (some entry.phase) (some next_entry.phase)
    → Moves (phase_of a s) (phase_of a s')
written-Moves b a entry next_entry s s' found written moves = elim (Bool-cases (text_eq b a)) [
  | inl same ↦
      along a s s' (some entry.phase) (some next_entry.phase) (ground (arith, text_eq_iff b a))
        (ground (arith, lookup-insert b a next_entry s.accounts)) moves
  | inr differs ↦
      along a s s' (phase_of a s) (phase_of a s) refl
        (ground (arith, lookup-insert b a next_entry s.accounts)) (stays (phase_of a s))
]

pub set_phase-Moves :
    (b a : Text) (entry : Account) (p : Phase) (s : MpcRecovery)
    → lookup b s.accounts ≡ some entry
    → Moves (some entry.phase) (some p)
    → Moves (phase_of a s) (phase_of a (Deciding.set_phase b entry p s))
unfolding Deciding.set_phase
set_phase-Moves b a entry p s found moves =
    written-Moves b a entry (record entry { phase = p }) s (Deciding.set_phase b entry p s) found
      refl moves
