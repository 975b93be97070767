-- ===== src/Signer/Errors.antt =====
-- contracts/active-signer/src/error.rs: the messages that a call of the signer panics with.
use hos_tla_contracts.Base.{Result}

pub data SignerError : Type 0 where
  only_admin : SignerError
  only_minter : SignerError
  only_marketplace : SignerError
  wallet_not_under_minter : SignerError
  last_admin : SignerError
  only_recovery : SignerError
  no_signer : SignerError
  one_yocto_required : SignerError
  signer_mismatch : SignerError
  wrong_chain : SignerError
  wallet_frozen : SignerError
  wallet_not_frozen : SignerError
  owner_changed : SignerError
  bad_signature : SignerError
  nonce_rejected : SignerError
  unauthorized : SignerError
  bad_key : SignerError
  mpc_not_ed25519 : SignerError
  signer_exists : SignerError
  no_actions : SignerError
  bad_message_nonce : SignerError

-- What a call answers: a panic is rolled back.
abbrev pub Answer : Type 0 → Type 0
Answer A = Result SignerError A
