-- ===== src/Extension/Errors.antt =====
-- contracts/hos-extension/src/error.rs.
use hos_tla_contracts.Base.{Result}

pub data ExtensionError : Type 0 where
  only_admin : ExtensionError
  only_registry : ExtensionError
  paused : ExtensionError
  cannot_remove_last_admin : ExtensionError
  insufficient_deposit : ExtensionError
  insufficient_balance : ExtensionError
  not_ed25519 : ExtensionError

abbrev pub Handled : Type 0 → Type 0
Handled A = Result ExtensionError A
