-- ===== src/Recovery/Quorum.antt =====
-- What a quorum is (proof.rs), and what a verdict that goes through has checked (lib.rs).
use mathlib.Core.List.{Mem, mem-cons_self, mem-cons_of_mem}
use hos_tla_contracts.Base.{
  Bool, Bool-cases, List, Option-cases, Result-cases, Text, [], arith, false, if◌then◌else◌, inl,
  inr, length, lookup, not, ok, refl, some, true, ℕ, ◌&&◌, ◌*◌, ◌++◌, ◌+◌, ◌||◌, ◌∷◌, ◌≡◌, ◌≤◌,
}
use hos_tla_contracts.Host.{Host, PublicKey}
use hos_tla_contracts.Recovery.Deciding.{
  Sent, approve, as_requested, set_phase, sized_signatures, submit_verdict,
}
use hos_tla_contracts.Recovery.Opening.{ns_per_sec}
use hos_tla_contracts.Recovery.Proof.{
  contains, count_signers, verdict_message, verify, verify_quorum,
}
use hos_tla_contracts.Recovery.Types.{
  Account, MpcRecovery, Phase, RecoveryLib, Target, WatcherSignature, approved, approving, idle,
  is_native, native, requested, resolving, wallet,
}

-- Some signature of the list is a good one of the key over the message.
abbrev pub HasSigned : RecoveryLib → Text → List WatcherSignature → PublicKey → Type 0
HasSigned lib message signatures key =
    (w : WatcherSignature) × Mem w signatures
    × (w.public_key ≡ key)
    × (verify lib message w.signature key ≡ true)

-- Watchers, none twice, who have each signed the message.
pub data Signers (lib : RecoveryLib) (message : Text) (signatures : List WatcherSignature)
    (watchers : List PublicKey) : List PublicKey → Type 0 where
  none_yet : Signers lib message signatures watchers []
  one_more :
      {keys : List PublicKey}
      → Signers lib message signatures watchers keys
      → (key : PublicKey) → contains key keys ≡ false
      → contains key watchers ≡ true
      → HasSigned lib message signatures key
      → Signers lib message signatures watchers (keys ++ key ∷ [])

count_signers-Signers :
    (lib : RecoveryLib) (message : Text) (all : List WatcherSignature)
    (rest : List WatcherSignature) (watchers counted : List PublicKey)
    → ((w : WatcherSignature) → Mem w rest → Mem w all)
    → Signers lib message all watchers counted
    → Signers lib message all watchers (count_signers lib message rest watchers counted)
unfolding count_signers
count_signers-Signers lib message all [] watchers counted within so_far = so_far
count_signers-Signers lib message all (w ∷ rest) watchers counted within so_far =
    let later : (v : WatcherSignature) → Mem v rest → Mem v all =
      λ v m. within v (mem-cons_of_mem w m) in
    elim (Bool-cases (
      not (not (contains w.public_key watchers) || contains w.public_key counted)
      && verify lib message w.signature w.public_key)) [
        | inr passed_over ↦
            rw passed_over
              (count_signers-Signers lib message all rest watchers counted later so_far)
        | inl counts ↦
            let signed : HasSigned lib message all w.public_key =
              (w, within w mem-cons_self, refl, ground arith) in
            rw counts (
              count_signers-Signers lib message all rest watchers (counted ++ w.public_key ∷ [])
                later (one_more so_far w.public_key (ground arith) (ground arith) signed))
      ]

-- A quorum that is found has at least the threshold of keys, all different, each a watcher's, and
-- each with a verified signature over the message in the list.
pub verify_quorum_sound :
    (lib : RecoveryLib) (message : Text) (signatures : List WatcherSignature)
    (watchers : List PublicKey) (threshold : ℕ)
    → verify_quorum lib message signatures watchers threshold ≡ true
    → (keys : List PublicKey) × Signers lib message signatures watchers keys
      × (threshold ≤ length keys)
unfolding verify_quorum
verify_quorum_sound lib message signatures watchers threshold h = (
  count_signers lib message signatures watchers [],
  count_signers-Signers lib message signatures signatures watchers [] (λ w m. m) none_yet,
  ground arith,
)

-- A verdict that was accepted: the request that it decides, its timelock over, its quorum, and what is
-- left.
abbrev pub Decides :
    RecoveryLib → Host → Text → Bool → List WatcherSignature → MpcRecovery → MpcRecovery → Type 0
Decides lib env account silent signatures s s' =
    (entry : Account) × (new_owner : PublicKey) × (round : ℕ) × (requested_at : ℕ) × (lookup account
        s.accounts
      ≡ some entry)
    × (entry.phase ≡ requested new_owner round requested_at)
    × (requested_at + entry.policy.timelock_secs * ns_per_sec ≤ env.block_timestamp)
    × ((keys : List PublicKey) × Signers lib
          (verdict_message env.current_account account new_owner round silent)
          (sized_signatures signatures) s.watchers keys
        × (s.threshold ≤ length keys))
    × (s'
        ≡ set_phase account entry
            (if silent
              then (if is_native entry.policy.target
                  then approved new_owner round
                  else approving new_owner round)
              else idle)
            s)

approve_lem :
    (env : Host) (account : Text) (entry : Account) (k : PublicKey) (r : ℕ) (target : Target)
    (s s' : MpcRecovery) (sent : Sent)
    → approve env account entry k r target s ≡ ok (s', sent)
    → s' ≡ set_phase account entry (if is_native target then approved k r else approving k r) s
unfolding approve is_native
approve_lem env account entry k r (native mpc) s s' sent h = ground arith
approve_lem env account entry k r (wallet a bound) s s' sent h = ground arith

as_requested_lem :
    (p : Phase) (q : PublicKey × ℕ × ℕ) → as_requested p ≡ ok q → p ≡ requested q.0 q.1 q.2
unfolding as_requested
as_requested_lem (requested k r t) q h = ground arith
as_requested_lem idle q h = ground arith
as_requested_lem (approving k r) q h = ground arith
as_requested_lem (approved k r) q h = ground arith
as_requested_lem (resolving k r) q h = ground arith

-- A verdict that is accepted decides a pending request whose timelock is over; at least the
-- threshold of distinct watchers have signed the verdict message of that account, new owner,
-- round and verdict; and it leaves the account idle if the owner was not silent, and else
-- approved for a native account and approving for a wallet, for the same owner and round.
pub submit_verdict-Decides :
    (lib : RecoveryLib) (env : Host) (account : Text) (silent : Bool)
    (signatures : List WatcherSignature) (s s' : MpcRecovery) (sent : Sent)
    → submit_verdict lib env account silent signatures s ≡ ok (s', sent)
    → Decides lib env account silent signatures s s'
unfolding submit_verdict
submit_verdict-Decides lib env account silent signatures s s' sent h =
    elim (Option-cases (lookup account s.accounts)) [
      | inl unknown ↦ ground arith
      | inr (entry, found) ↦ elim (Result-cases (as_requested entry.phase)) [
        | inr (e, other) ↦ ground arith
        | inl (q, pending) ↦ (
          entry,
          q.0,
          q.1,
          q.2,
          found,
          as_requested_lem entry.phase q pending,
          ground arith,
          verify_quorum_sound lib (verdict_message env.current_account account q.0 q.1 silent)
              (sized_signatures signatures) s.watchers s.threshold (ground arith),
          left_over silent entry q found pending h,
        )
      ]
    ]
  where
    left_over :
        (silent : Bool) (entry : Account) (q : PublicKey × ℕ × ℕ)
        → lookup account s.accounts ≡ some entry
        → as_requested entry.phase ≡ ok q
        → submit_verdict lib env account silent signatures s ≡ ok (s', sent)
        → s'
          ≡ set_phase account entry
              (if silent
                then (if is_native entry.policy.target then approved q.0 q.1 else approving q.0 q.1)
                else idle)
              s
    left_over false entry q found pending h = ground arith
    left_over true entry q found pending h =
        approve_lem env account entry q.0 q.1 entry.policy.target s s' sent (ground arith)
