-- ===== src/Network/Sweeps.antt =====
-- A token sweep: contracts/tla-registry asks contracts/hos-extension for it, that asks the token for the
-- balance and for the storage of the destination, and contracts/active-signer for the signature.
use hos_tla_contracts.Extension.Sweeps as Steps
use hos_tla_contracts.Base.{
  Bool, List, Option, Text, false, if◌then◌else◌, is_some, none, some, suc, true, zero, ℕ, ◌∷◌,
}
use hos_tla_contracts.Extension.Sweeps.{SweepStep, gave_up, goes_on}
use hos_tla_contracts.Extension.Types.{
  ExtensionCall, ExtensionCallback, HosExtension, after_balance_for_sweep, after_force_swap,
  after_storage_for_sweep, after_sweep_settled, storage_deposit,
}

-- What the environment decides: the balance, whether the storage deposit succeeds, the signer's
-- answer (`none` if the call fails), and the JSON of a transfer's arguments.
pub record SweepEnv : Type 0 where
  pub balance : Option ℕ
  pub registered : Bool
  pub signed : Option Text
  pub json_of : Text → ℕ → Text → Text

-- The amounts that have left the extension, the latest first.
abbrev pub Moved : Type 0
Moved = List (Text × ℕ)

pub data SweepAnswer : Type 0 where
  balance_is : Option ℕ → SweepAnswer
  storage_done : (succeeded : Bool) → SweepAnswer
  signed_is : Option Text → SweepAnswer

-- What follows a callback: another call, or the sweep's value with a transfer that nothing waits for.
pub data SweepAfter : Type 0 where
  next_step : ExtensionCall → ExtensionCallback → SweepAfter
  swept : (value : Option Text) (refund : Option ExtensionCall) → SweepAfter

module _ (env : SweepEnv) where
  abbrev moved_if : Bool → Text → ℕ → Moved → Moved
  moved_if succeeded to amount moved = if succeeded then (to, amount) ∷ moved else moved

  -- The deposit of a call that fails stays with the extension.
  unfoldable pub perform_call : ExtensionCall → Moved → Moved × SweepAnswer
  perform_call (ExtensionCall.ft_balance_of ft account_id) moved = (moved, balance_is env.balance)
  perform_call (storage_deposit deposit ft account_id registration_only) moved =
      (moved_if env.registered ft deposit moved, storage_done env.registered)
  perform_call
        (ExtensionCall.authority_sign_tx deposit signer account_id ft actions tx_nonce block_hash)
        moved =
      (moved_if (is_some env.signed) signer deposit moved, signed_is env.signed)
  perform_call (ExtensionCall.transfer_near to amount) moved =
      ((to, amount) ∷ moved, storage_done true)
  perform_call (ExtensionCall.swap_owner signer account_id raw_key expected) moved =
      (moved, storage_done false)
  perform_call (ExtensionCall.on_wallet_transferred contract account_id) moved =
      (moved, storage_done false)

  abbrev stepped : SweepStep → SweepAfter
  stepped (gave_up refund) = swept none (some refund)
  stepped (goes_on sent callback) = next_step sent callback

  -- A callback with its call's answer; an answer of another kind does not deserialize.
  unfoldable pub resume_sweep : ExtensionCallback → SweepAnswer → HosExtension → SweepAfter
  resume_sweep (after_balance_for_sweep account_id ft destination tx_nonce block_hash)
        (balance_is b) s =
      stepped (Steps.balance_for_sweep account_id ft destination tx_nonce block_hash b s)
  resume_sweep (after_balance_for_sweep account_id ft destination tx_nonce block_hash) _ s =
      stepped (Steps.balance_for_sweep account_id ft destination tx_nonce block_hash none s)
  resume_sweep (after_storage_for_sweep account_id ft destination b tx_nonce block_hash)
        (storage_done succeeded) s =
      stepped (
        Steps.storage_for_sweep env.json_of account_id ft destination b tx_nonce block_hash
          succeeded s)
  resume_sweep (after_storage_for_sweep account_id ft destination b tx_nonce block_hash) _ s =
      stepped
        (Steps.storage_for_sweep env.json_of account_id ft destination b tx_nonce block_hash true s)
  resume_sweep (after_sweep_settled account_id ft destination amount) (signed_is v) s =
      swept (Steps.sweep_settled v) none
  resume_sweep (after_sweep_settled account_id ft destination amount) _ s =
      swept (Steps.sweep_settled none) none
  resume_sweep (after_force_swap account_id) _ s = swept none none

  abbrev paid_out : Option ExtensionCall → Moved → Moved
  paid_out none moved = moved
  paid_out (some refund) moved = (perform_call refund moved).0

  -- The calls and callbacks of a sweep, with fuel for each call; `none` when it runs out.
  unfoldable pub follow_sweep :
      ℕ → ExtensionCall → ExtensionCallback → HosExtension → Moved → Option (Option Text × Moved)
  follow_sweep zero sent callback s moved = none
  follow_sweep (suc fuel) sent callback s moved =
      let (moved', answer) = perform_call sent moved in
      elim (resume_sweep callback answer s) [
        | next_step sent_next then_callback ↦ follow_sweep fuel sent_next then_callback s moved'
        | swept value refund ↦ some (value, paid_out refund moved')
      ]
