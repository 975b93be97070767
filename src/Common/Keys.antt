-- ===== src/Common/Keys.antt =====
-- crates/hos-common/src/lib.rs: the key checks, and the outcome of a mint.
use hos_tla_contracts.Base.{
  Bool, Option, Text, codes, false, if◌then◌else◌, none, strip_prefix, true, ℕ,
}
use hos_tla_contracts.Host.{CurveType, Host, PublicKey}

unfoldable pub is_ed25519 : PublicKey → Bool
is_ed25519 key = elim key.curve_type [ CurveType.ed25519 ↦ true | _ ↦ false ]

-- The key's text without its prefix.
unfoldable pub ed25519_base58 : Host → PublicKey → Option Text
unfolding is_ed25519
ed25519_base58 env key =
    if is_ed25519 key then strip_prefix (codes "ed25519:") (env.key_to_string key) else none

pub data MintOutcome : Type 0 where
  creation_failed active signer_pending : MintOutcome

abbrev pub ft_storage_deposit_yocto : ℕ
ft_storage_deposit_yocto = 1250000000000000000000
