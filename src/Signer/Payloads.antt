-- ===== src/Signer/Payloads.antt =====
-- contracts/active-signer/src: the bytes that a proof signs (lib.rs), and those that the MPC network is
-- asked to sign (lib.rs, nep413.rs).
use hos_tla_contracts.Base.{Bool, Option, Text, [], codes, none, some, to_le_bytes, ℕ, ◌++◌, ◌∷◌}
use hos_tla_contracts.Common.Tx.{mpc_path, to_hex, write_str}
use hos_tla_contracts.Signer.Types.{ActiveSigner, SignerLib}

abbrev pub mainnet : Text
mainnet = codes "mainnet"

-- `FreezeTag`, `TxTag` and `MessageTag`.
pub data DomainTag : Type 0 where
  freeze_tag tx_tag message_tag : DomainTag

unfoldable pub domain : DomainTag → Text
domain freeze_tag = codes "NEAR_HOS_ACTIVE_SIGNER_FREEZE/V1"
domain tx_tag = codes "NEAR_HOS_ACTIVE_SIGNER_TX/V1"
domain message_tag = codes "NEAR_HOS_ACTIVE_SIGNER_MSG/V1"

-- `TaggedDomain::verify`
unfoldable pub verify_tagged :
    {Nonces : Type 0} → SignerLib Nonces → DomainTag → Text → Text → Text → Bool
unfolding domain
verify_tagged lib tag msg public_key proof = lib.verify_sha256 (domain tag ++ msg) public_key proof

abbrev pub nep413_tag : ℕ
nep413_tag = 2147484061

-- nep413.rs, `payload`
unfoldable pub payload : Text → Text → Text → Option Text → Text
unfolding write_str to_le_bytes
payload message nonce recipient callback_url =
    to_le_bytes 4 nep413_tag
    ++ write_str message
    ++ nonce
    ++ write_str recipient
    ++ elim callback_url [ some url ↦ 1 ∷ write_str url | none ↦ 0 ∷ [] ]

-- The call of the MPC contract, and what its callback `on_signed` is given.
pub record SignRequest : Type 0 where
  pub receiver : Text
  pub path : Text
  pub payload_hash : Text
  pub domain_id : ℕ
  pub unsigned_tx_hex : Option Text

unfoldable pub sign_payload :
    {Nonces : Type 0} → ActiveSigner Nonces → Text → Text → Option Text → SignRequest
unfolding mpc_path to_hex
sign_payload s wallet hash unsigned_tx_hex = record {
  receiver = s.mpc_signer;
  path = mpc_path wallet;
  payload_hash = to_hex hash;
  domain_id = 1;
  unsigned_tx_hex = unsigned_tx_hex;
}

pub record MpcSigned : Type 0 where
  pub payload_hash : Text
  pub unsigned_tx_hex : Option Text
  pub mpc_signature : Text

-- The signature is JSON, here its text; `none` is a `PromiseError`.
unfoldable pub on_signed : Text → Option Text → Option Text → Option MpcSigned
on_signed payload_hash unsigned_tx_hex none = none
on_signed payload_hash unsigned_tx_hex (some mpc_signature) = some (record {
  payload_hash = payload_hash;
  unsigned_tx_hex = unsigned_tx_hex;
  mpc_signature = mpc_signature;
})
