-- ===== src/Manager/Errors.antt =====
-- contracts/tla-manager/src/error.rs: the messages that a call panics with. The last one is that of
-- crates/hos-common.
use hos_tla_contracts.Base.{Result}

pub data ManagerError : Type 0 where
  only_registry : ManagerError
  invalid_name : ManagerError
  insufficient_deposit : ManagerError
  derive_failed : ManagerError
  owner_not_ed25519 : ManagerError

abbrev pub Managed : Type 0 → Type 0
Managed A = Result ManagerError A
