-- ===== src/Extension/Admin.antt =====
-- contracts/hos-extension/src/lib.rs: init, the guards and the calls of the admins.
use hos_tla_contracts.Base.{
  Text, [], add_member, drop_member, ensure, false, leb, length, ltb, member, ok, reject, sat_mul,
  text_eq, true, u128_max, ℕ, ◌-◌, ◌>>◌, ◌∷◌,
}
use hos_tla_contracts.Extension.Errors.{
  Handled, cannot_remove_last_admin, insufficient_balance, only_admin, only_registry, paused,
}
use hos_tla_contracts.Extension.Types.{ExtensionCall, HosExtension, contract_version, transfer_near}
use hos_tla_contracts.Host.{Host}

unfoldable pub new : Text → Text → Text → Text → HosExtension
new admin registry active_signer recovery = record {
  admins = admin ∷ [];
  registry = registry;
  active_signer = active_signer;
  recovery = recovery;
  paused = false;
  version = contract_version;
}

unfoldable pub assert_admin : Host → HosExtension → Handled (Unit {0})
assert_admin env s = ensure (member env.predecessor s.admins) only_admin

unfoldable pub assert_registry : Host → HosExtension → Handled (Unit {0})
assert_registry env s = ensure (text_eq env.predecessor s.registry) only_registry

unfoldable pub assert_not_paused : HosExtension → Handled (Unit {0})
assert_not_paused s = reject s.paused paused

unfoldable pub pause : Host → HosExtension → Handled HosExtension
unfolding assert_admin
pause env s = assert_admin env s >> ok (record s { paused = true })

unfoldable pub unpause : Host → HosExtension → Handled HosExtension
unfolding assert_admin
unpause env s = assert_admin env s >> ok (record s { paused = false })

unfoldable pub add_admin : Host → Text → HosExtension → Handled HosExtension
unfolding assert_admin
add_admin env account s =
    assert_admin env s >> ok (record s { admins = add_member account s.admins })

unfoldable pub remove_admin : Host → Text → HosExtension → Handled HosExtension
unfolding assert_admin
remove_admin env account s = do
  assert_admin env s
  reject (leb (length s.admins) 1) cannot_remove_last_admin
  ok (record s { admins = drop_member account s.admins })

unfoldable pub skim : Host → ℕ → Text → HosExtension → Handled ExtensionCall
unfolding assert_admin
skim env amount to s = do
  assert_admin env s
  let reserve = sat_mul u128_max env.storage_byte_cost env.storage_usage
  let available = env.account_balance - reserve
  reject (ltb available amount) insufficient_balance
  ok (transfer_near to amount)
