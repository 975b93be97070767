-- ===== src/Extension/Transfers.antt =====
-- contracts/hos-extension/src/lib.rs: the transfer of a wallet.
use hos_tla_contracts.Base.{Bool, Option, Text, false, none, ok, ok_or, some, true, ◌>>=◌, ◌>>◌}
use hos_tla_contracts.Common.Keys.{ed25519_base58}
use hos_tla_contracts.Extension.Admin.{assert_not_paused, assert_registry}
use hos_tla_contracts.Extension.Errors.{Handled, not_ed25519}
use hos_tla_contracts.Extension.Types.{
  ExtensionCall, ExtensionCallback, HosExtension, after_force_swap, on_wallet_transferred,
  swap_owner,
}
use hos_tla_contracts.Host.{Host, PublicKey}

unfoldable pub base58 : Host → PublicKey → Handled Text
unfolding ed25519_base58
base58 env key = ok_or (ed25519_base58 env key) not_ed25519

abbrev pub base58_option : Host → Option PublicKey → Handled (Option Text)
base58_option env none = ok none
base58_option env (some key) = base58 env key >>= λ raw. ok (some raw)

unfoldable pub force_transfer :
    Host
    → Text
    → PublicKey
    → Option PublicKey
    → HosExtension
    → Handled (ExtensionCall × ExtensionCallback)
unfolding assert_registry assert_not_paused
force_transfer env wallet new_public_key expected_current s = do
  assert_registry env s
  assert_not_paused s
  raw_key ← base58 env new_public_key
  expected_raw ← base58_option env expected_current
  ok (swap_owner s.active_signer wallet raw_key expected_raw, after_force_swap wallet)

-- The result, with the call that nothing waits for; `none` for a `PromiseError`.
unfoldable pub force_swapped : Text → Option Bool → HosExtension → Bool × Option ExtensionCall
force_swapped wallet (some true) s = (true, some (on_wallet_transferred s.recovery wallet))
force_swapped wallet (some false) s = (false, none)
force_swapped wallet none s = (false, none)
