-- ===== src/Registry/AssetGate.antt =====
-- contracts/tla-registry/src/asset_gate.rs: a wallet changes hands only when no allow-listed token
-- reports a balance on it.
use hos_tla_contracts.Base.{
  List, Option, Text, [], if◌then◌else◌, length, ltb, none, some, ℕ, ◌==◌, ◌∷◌,
}
use hos_tla_contracts.Host.{Host, PromiseResult, failed, successful, unreadable}
use hos_tla_contracts.Registry.Promises.{Remote, ft_balance_of}

-- The reason strings.
pub data BlockReason : Type 0 where
  result_count_mismatch balance_unverifiable : BlockReason
  balance_query_failed balance_query_unverifiable : BlockReason
  holds : ℕ → BlockReason

pub data BalanceGate : Type 0 where
  clear : BalanceGate
  blocked : (token : Text) (reason : BlockReason) → BalanceGate

abbrev pub balance_calls : Text → List Text → List Remote
balance_calls sub_account [] = []
balance_calls sub_account (ft ∷ rest) =
    ft_balance_of ft sub_account ∷ balance_calls sub_account rest

-- `none` for an empty allowlist: there is nothing to ask.
unfoldable pub ft_balance_fanout : List Text → Text → Option (List Remote)
ft_balance_fanout [] sub_account = none
ft_balance_fanout (first ∷ rest) sub_account =
    some (ft_balance_of first sub_account ∷ balance_calls sub_account rest)

unfoldable pub block_reason : Host → PromiseResult → Option BlockReason
block_reason env (successful bytes) = elim (env.parse_u128 bytes) [
  | some balance ↦ if ltb 0 balance then some (holds balance) else none
  | none ↦ some balance_unverifiable
]
block_reason env failed = some balance_query_failed
block_reason env unreadable = some balance_query_unverifiable

-- The loop over the allowlist and the results, which are as many.
unfoldable pub first_blocked : Host → List Text → List PromiseResult → BalanceGate
unfolding block_reason
first_blocked env [] results = clear
first_blocked env (token ∷ rest) [] = blocked token balance_query_unverifiable
first_blocked env (token ∷ rest) (result ∷ results) = elim (block_reason env result) [
  | some reason ↦ blocked token reason
  | none ↦ first_blocked env rest results
]

unfoldable pub ft_balances_clear : Host → List Text → BalanceGate
unfolding first_blocked
ft_balances_clear env allowlist =
    if length env.promise_results == length allowlist
    then first_blocked env allowlist env.promise_results
    else blocked [] result_count_mismatch
