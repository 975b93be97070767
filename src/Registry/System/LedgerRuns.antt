-- ===== src/Registry/System/LedgerRuns.antt =====
-- The refund ledger along every run of the registry.
use hos_tla_contracts.Registry.Admin
use hos_tla_contracts.Base.{
  Text, [], ap, arith, err, inl, inr, ok, refl, sat_add, some, sym, u128_max, ℕ, ◌<◌, ◌∙◌, ◌≡◌, ◌⊎◌,
}
use hos_tla_contracts.Host.{Host, PublicKey}
use hos_tla_contracts.Registry.Errors.{Reply}
use hos_tla_contracts.Registry.Money.Ledger.{IsLedger, claim_refund_settles}
use hos_tla_contracts.Registry.Promises.{Promise}
use hos_tla_contracts.Registry.State.{TlaRegistry}
use hos_tla_contracts.Registry.System.{Method, Reach, Step, back, call, here, next, run, state_of}
use hos_tla_contracts.Registry.System.Credits.{
  Claims, Credits, OneCredit, OneCredit-IsLedger, kept_books, run-Credits, then_credit,
}
use hos_tla_contracts.Registry.System.Settlements.{settle-Credits}

OneCredit-below :
    (account : Text) (amount : ℕ) (s s' : TlaRegistry)
    → OneCredit account amount s s'
    → s'.total_pending_refunds < u128_max
    → s.total_pending_refunds < u128_max
unfolding sat_add
OneCredit-below account amount s s' one below = ground arith

Credits-IsLedger :
    {s s' : TlaRegistry}
    → Credits s s'
    → s'.total_pending_refunds < u128_max
    → IsLedger s
    → IsLedger s'
Credits-IsLedger {s} {s'} (kept_books same) below h = record {
  distinct = rw same.pending h.distinct;
  total = same.total ∙ rw same.pending h.total;
}
Credits-IsLedger {s} {s'} (then_credit {t} {u} c account amount one) below h =
    let below_before = OneCredit-below account amount t s' one below in
    (OneCredit-IsLedger account amount t s' one below (Credits-IsLedger c below_before h)).0

claim-IsLedger :
    (env : Host) (s s' : TlaRegistry) (r : Reply (TlaRegistry × Promise))
    → Admin.claim_refund env s ≡ r
    → state_of r ≡ ok s'
    → s.total_pending_refunds < u128_max
    → IsLedger s
    → IsLedger s'
claim-IsLedger env s s' (err e) claimed g below h = cc
claim-IsLedger env s s' (ok (s'', p)) claimed g below h =
    let same : s'' ≡ s' = ground arith in
    let (amount, found, sent, less, gone, ledger, owed_again) =
      claim_refund_settles env s s'' p h (ground arith) claimed in
    rw (← same) ledger

pays_or_not : (m : Method) → (m ≡ Method.claim_refund) ⊎ ¬ Claims m
pays_or_not Method.claim_refund = inl refl
pays_or_not _ = inr (elim [ ])

run_claim :
    (env : Host) (s : TlaRegistry)
    → run env Method.claim_refund s ≡ state_of (Admin.claim_refund env s)
unfolding run
run_claim env s = refl

run-IsLedger :
    (env : Host) (m : Method) (s s' : TlaRegistry)
    → run env m s ≡ ok s'
    → s.total_pending_refunds < u128_max
    → s'.total_pending_refunds < u128_max
    → IsLedger s
    → IsLedger s'
run-IsLedger env m s s' h below below' ledger = elim (pays_or_not m) [
  | inl it ↦
      let claimed = sym (run_claim env s) ∙ sym (ap (λ x. run env x s) it) ∙ h in
      claim-IsLedger env s s' (Admin.claim_refund env s) refl claimed below ledger
  | inr other ↦ Credits-IsLedger (run-Credits env m s s' other h) below' ledger
]

-- The refunds owed stay below the largest u128 in every state of a run.
abbrev pub StaysBelow : {s s' : TlaRegistry} → Reach s s' → Type 0
StaysBelow {s} {s'} here = s.total_pending_refunds < u128_max
StaysBelow {s} {s'} (next r step) = StaysBelow r × (s'.total_pending_refunds < u128_max)

ends_below :
    {s s' : TlaRegistry} (r : Reach s s') → StaysBelow r → s'.total_pending_refunds < u128_max
ends_below {s} {s'} here below = below
ends_below {s} {s'} (next r step) below = below.1

Step-IsLedger :
    {s s' : TlaRegistry}
    → Step s s'
    → s.total_pending_refunds < u128_max
    → s'.total_pending_refunds < u128_max
    → IsLedger s
    → IsLedger s'
Step-IsLedger {s} {s'} (call env m h) below below' ledger =
    run-IsLedger env m s s' h below below' ledger
Step-IsLedger {s} {s'} (back env c h) below below' ledger =
    Credits-IsLedger (settle-Credits env c s s' h) below' ledger

Reach-IsLedger : {s s' : TlaRegistry} (r : Reach s s') → StaysBelow r → IsLedger s → IsLedger s'
Reach-IsLedger here below ledger = ledger
Reach-IsLedger (next r step) below ledger =
    Step-IsLedger step (ends_below r below.0) below.1 (Reach-IsLedger r below.0 ledger)

new-IsLedger :
    (env : Host) (admin hos_extension active_signer : Text) (k : PublicKey) (period : ℕ)
    (s : TlaRegistry)
    → Admin.new env admin hos_extension active_signer k period ≡ some s
    → IsLedger s
unfolding Admin.new
new-IsLedger env admin hos_extension active_signer k period s made =
    let empty : s.pending_refunds ≡ [] = ground arith in
    let nothing : s.total_pending_refunds ≡ 0 = ground arith in
    record { distinct = rw empty tt; total = nothing ∙ rw empty refl }

-- In every state that a sequence of calls and callbacks can lead to from a successful init, with
-- any callers, times and promise results, each account has one entry in the refund ledger and the
-- running total is the sum of the entries, while the refunds owed stay below the largest u128 in
-- every state on the way.
pub new-Reach-IsLedger :
    (env : Host) (admin hos_extension active_signer : Text) (k : PublicKey) (period : ℕ)
    (s s' : TlaRegistry)
    → Admin.new env admin hos_extension active_signer k period ≡ some s
    → (r : Reach s s') → StaysBelow r
    → IsLedger s'
new-Reach-IsLedger env admin hos_extension active_signer k period s s' made r below =
    Reach-IsLedger r below (new-IsLedger env admin hos_extension active_signer k period s made)
