-- ===== src/Extension/Sweeps.antt =====
-- contracts/hos-extension/src/lib.rs: the sweep of a token, in four calls. JSON is its text, and the
-- arguments of `ft_transfer` are written by a function of the host.
use hos_tla_contracts.Base.{
  Bool, Option, Text, [], codes, ensure, if◌then◌else◌, none, not, ok, some, text_eq, true, ℕ, ◌==◌,
  ◌>>◌, ◌∷◌,
}
use hos_tla_contracts.Common.Keys.{ft_storage_deposit_yocto}
use hos_tla_contracts.Common.Tx.{TxAction, function_call}
use hos_tla_contracts.Extension.Admin.{assert_not_paused, assert_registry}
use hos_tla_contracts.Extension.Errors.{Handled, insufficient_deposit}
use hos_tla_contracts.Extension.Types.{
  ExtensionCall, ExtensionCallback, HosExtension, after_balance_for_sweep, after_storage_for_sweep,
  after_sweep_settled, authority_sign_tx, ft_balance_of, min_sweep_attached, one_yocto,
  storage_deposit, transfer_near,
}
use hos_tla_contracts.Host.{Host}

unfoldable pub sweep_ft :
    Host
    → Text
    → Text
    → Text
    → ℕ
    → Text
    → HosExtension
    → Handled (ExtensionCall × ExtensionCallback)
unfolding assert_registry assert_not_paused
sweep_ft env wallet ft destination tx_nonce block_hash s = do
  assert_registry env s
  assert_not_paused s
  ensure (env.attached_deposit == min_sweep_attached) insufficient_deposit
  ok (ft_balance_of ft wallet, after_balance_for_sweep wallet ft destination tx_nonce block_hash)

unfoldable pub refund_registry : ℕ → HosExtension → ExtensionCall
refund_registry amount s = transfer_near s.registry amount

-- `PromiseOrValue<Option<Value>>`: the value is always `None`, with a refund that nothing waits for.
pub data SweepStep : Type 0 where
  gave_up : (refund : ExtensionCall) → SweepStep
  goes_on : (next : ExtensionCall) (callback : ExtensionCallback) → SweepStep

unfoldable pub abort_and_refund : HosExtension → SweepStep
unfolding refund_registry
abort_and_refund s = gave_up (refund_registry min_sweep_attached s)

-- The balance is `none` for a `PromiseError`.
unfoldable pub balance_for_sweep :
    Text → Text → Text → ℕ → Text → Option ℕ → HosExtension → SweepStep
unfolding abort_and_refund
balance_for_sweep wallet ft destination tx_nonce block_hash none s = abort_and_refund s
balance_for_sweep wallet ft destination tx_nonce block_hash (some balance) s =
    if balance == 0
    then abort_and_refund s
    else goes_on (storage_deposit ft_storage_deposit_yocto ft destination true)
        (after_storage_for_sweep wallet ft destination balance tx_nonce block_hash)

-- `json!({..}).to_string().into_bytes()` of the receiver, the amount and the memo.
unfoldable pub sweep_action : (json_of : Text → ℕ → Text → Text) → Text → ℕ → TxAction
sweep_action json_of destination amount =
    function_call (codes "ft_transfer") (json_of destination amount (codes "hos-tla reclaim"))
      10000000000000 one_yocto

-- The flag is `is_promise_success()`.
unfoldable pub storage_for_sweep :
    (Text → ℕ → Text → Text) → Text → Text → Text → ℕ → ℕ → Text → Bool → HosExtension → SweepStep
unfolding abort_and_refund sweep_action
storage_for_sweep json_of wallet ft destination balance tx_nonce block_hash succeeded s =
    if not succeeded
    then abort_and_refund s
    else goes_on
        (authority_sign_tx one_yocto s.active_signer wallet ft
          (sweep_action json_of destination balance ∷ []) tx_nonce block_hash)
        (after_sweep_settled wallet ft destination balance)

-- The signed value, unless it is JSON's `null`.
unfoldable pub sweep_settled : Option Text → Option Text
sweep_settled none = none
sweep_settled (some signed) = if text_eq signed (codes "null") then none else some signed
