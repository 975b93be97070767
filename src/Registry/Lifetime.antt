-- ===== src/Registry/Lifetime.antt =====
-- The lifecycle of sub-accounts over time (types.rs, mother.rs, marketplace.rs, reclaim.rs).
use hos_tla_contracts.Base.{
  Bool-cases, Option-cases, Text, arith, inl, inr, leb, ok, sat_add, some, u64_max, ℕ, ◌↔◌, ◌≡◌,
  ◌≢◌, ◌≤◌, ◌⊎◌,
}
use hos_tla_contracts.Host.{Host}
use hos_tla_contracts.Registry.Reclaim.{resolve_reclaimable}
use hos_tla_contracts.Registry.Sales.{assert_sellable}
use hos_tla_contracts.Registry.State.{TlaRegistry}
use hos_tla_contracts.Registry.Types.{
  LifecycleStatus, SubAccountEntry, TlaEntry, TlaStatus, effective_sub_lifecycle,
}

-- A sub-account that is reclaimable stays reclaimable at every later time while its entry, its
-- TLA's entry and the periods do not change.
pub reclaimable_persists :
    (env env' : Host) (sub : SubAccountEntry) (tla : TlaEntry) (notice grace_period : ℕ)
    → env.block_timestamp ≤ env'.block_timestamp
    → effective_sub_lifecycle env sub tla notice grace_period ≡ LifecycleStatus.reclaimable
    → effective_sub_lifecycle env' sub tla notice grace_period ≡ LifecycleStatus.reclaimable
unfolding effective_sub_lifecycle
reclaimable_persists env env' sub tla notice grace_period later h = ground arith

-- A sub-account that passes the checks of a sale does not pass those of a reclaim at the same
-- moment.
pub sellable_or_reclaimable :
    (env : Host) (key tla_id owner : Text) (s : TlaRegistry)
    → assert_sellable env key tla_id s ≡ ok owner
    → (target : Text × Text) → resolve_reclaimable env tla_id key s ≢ ok target
unfolding assert_sellable resolve_reclaimable
sellable_or_reclaimable env key tla_id owner s h target r = ground arith

-- A sub-account is reclaimable exactly when its TLA is active and past grace, its notice has run
-- out, or it is itself past grace; the sums saturate at 2^64 - 1.
abbrev pub HasLapsed : Host → ℕ → ℕ → Type 0
HasLapsed env expires_at grace_period =
    (expires_at ≤ env.block_timestamp)
    × (sat_add u64_max expires_at grace_period ≤ env.block_timestamp)

-- A sub-account is reclaimable exactly when its TLA is active and past its grace period, its
-- retraction notice has run out, or its own term is past grace, with the sums saturating at 2^64
-- - 1.
pub reclaimable_iff :
    (env : Host) (sub : SubAccountEntry) (tla : TlaEntry) (notice grace_period : ℕ)
    → (effective_sub_lifecycle env sub tla notice grace_period ≡ LifecycleStatus.reclaimable) ↔ (
        ((tla.status ≡ TlaStatus.active) × HasLapsed env tla.expires_at grace_period)
        ⊎ ((at : ℕ) × (sub.retraction_at ≡ some at)
            × (sat_add u64_max at notice ≤ env.block_timestamp))
        ⊎ HasLapsed env sub.expires_at grace_period)
unfolding effective_sub_lifecycle
reclaimable_iff env sub tla notice grace_period = elim (Option-cases sub.retraction_at) [
  | inl none_set ↦ (λ h. ground arith, λ h. ground arith)
  | inr (at, set) ↦ (
    λ h. elim (Bool-cases (leb (sat_add u64_max at notice) env.block_timestamp)) [
      | inl elapsed ↦ inr (inl (at, set, ground arith))
      | inr running ↦ ground arith
    ],
    λ h. ground arith,
  )
]
