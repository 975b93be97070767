-- ===== src/Registry/Balances.antt =====
-- When the balance gate of a sale or a reclaim is open (asset_gate.rs).
use hos_tla_contracts.Base.{
  List, Option-cases, Text, [], arith, inl, inr, length, none, refl, some, ◌↔◌, ◌∷◌, ◌≡◌,
}
use hos_tla_contracts.Host.{Host, PromiseResult, failed, successful, unreadable}
use hos_tla_contracts.Registry.AssetGate.{block_reason, clear, first_blocked, ft_balances_clear}

-- The query came back with a balance that reads as zero.
abbrev pub IsEmptyBalance : Host → PromiseResult → Type 0
IsEmptyBalance env r = (bytes : Text) × (r ≡ successful bytes) × (env.parse_u128 bytes ≡ some 0)

abbrev pub AreEmptyBalances : Host → List PromiseResult → Type 0
AreEmptyBalances env [] = Unit {0}
AreEmptyBalances env (r ∷ rs) = IsEmptyBalance env r × AreEmptyBalances env rs

block_reason-none :
    (env : Host) (r : PromiseResult) → block_reason env r ≡ none → IsEmptyBalance env r
unfolding block_reason
block_reason-none env (successful bytes) h = (bytes, refl, parsed)
  where
    parsed : env.parse_u128 bytes ≡ some 0
    parsed = ground arith
block_reason-none env failed h = cc
block_reason-none env unreadable h = cc

block_reason_empty :
    (env : Host) (r : PromiseResult) → IsEmptyBalance env r → block_reason env r ≡ none
unfolding block_reason
block_reason_empty env r (bytes, is, zero_balance) = ground arith

first_blocked_sound :
    (env : Host) (l : List Text) (rs : List PromiseResult)
    → length rs ≡ length l
    → first_blocked env l rs ≡ clear
    → AreEmptyBalances env rs
unfolding first_blocked
first_blocked_sound env [] [] same h = tt
first_blocked_sound env [] (r ∷ rs) same h = absurd (omega (arith, same))
first_blocked_sound env (t ∷ l) [] same h = tt
first_blocked_sound env (t ∷ l) (r ∷ rs) same h = elim (Option-cases (block_reason env r)) [
  | inl clean ↦ (
    block_reason-none env r clean,
    first_blocked_sound env l rs (omega (arith, same)) (ground arith),
  )
  | inr (reason, found) ↦ ground arith
]

first_blocked_complete :
    (env : Host) (l : List Text) (rs : List PromiseResult)
    → length rs ≡ length l
    → AreEmptyBalances env rs
    → first_blocked env l rs ≡ clear
unfolding first_blocked
first_blocked_complete env [] rs same empty = refl
first_blocked_complete env (t ∷ l) [] same empty = absurd (omega (arith, same))
first_blocked_complete env (t ∷ l) (r ∷ rs) same (first, rest) = ground (
  arith,
  block_reason_empty env r first,
  first_blocked_complete env l rs (omega (arith, same)) rest,
)

-- The balance gate is open exactly when there are as many results as allowed tokens and every
-- result came back with bytes that read as the balance 0.
pub ft_balances_clear_iff :
    (env : Host) (allowlist : List Text)
    → (ft_balances_clear env allowlist ≡ clear)
      ↔ ((length env.promise_results ≡ length allowlist) × AreEmptyBalances env env.promise_results)
unfolding ft_balances_clear
ft_balances_clear_iff env allowlist = (opens, opened)
  where
    opens :
        ft_balances_clear env allowlist ≡ clear
        → (length env.promise_results ≡ length allowlist) × AreEmptyBalances env env.promise_results
    opens h =
        let same : length env.promise_results ≡ length allowlist = ground arith in
        (same, first_blocked_sound env allowlist env.promise_results same (ground arith))

    opened :
        (length env.promise_results ≡ length allowlist) × AreEmptyBalances env env.promise_results
        → ft_balances_clear env allowlist ≡ clear
    opened (same, empty) =
        ground (arith, first_blocked_complete env allowlist env.promise_results same empty)
