-- ===== src/Recovery/Proof.antt =====
-- contracts/mpc-recovery/src/proof.rs and tx.rs: the messages that are signed, and the quorum.
use hos_tla_contracts.Base.{
  Bool, List, Option, Text, [], false, if◌then◌else◌, leb, length, none, not, or_else, some,
  to_le_bytes, true, ℕ, ◌%◌, ◌&&◌, ◌++◌, ◌==◌, ◌^◌, ◌||◌, ◌∷◌,
}
use hos_tla_contracts.Host.{PublicKey, as_bytes, curve_tag, key_eq}
use hos_tla_contracts.Recovery.Types.{RecoveryLib, WatcherSignature}

abbrev pub domain_request : ℕ
domain_request = 1

abbrev pub domain_verdict : ℕ
domain_verdict = 2

unfoldable pub push_str : Text → Text
push_str s = to_le_bytes 4 (length s % 2 ^ 32) ++ s

unfoldable pub message_core : ℕ → Text → Text → PublicKey → ℕ → Text
unfolding push_str to_le_bytes
message_core tag contract account new_owner round =
    tag ∷ push_str contract ++ push_str account ++ as_bytes new_owner ++ to_le_bytes 8 round

unfoldable pub request_message : Text → Text → PublicKey → ℕ → Text
unfolding message_core
request_message contract account new_owner round =
    message_core domain_request contract account new_owner round

-- `silent as u8`
abbrev pub bool_byte : Bool → ℕ
bool_byte true = 1
bool_byte false = 0

unfoldable pub verdict_message : Text → Text → PublicKey → ℕ → Bool → Text
unfolding message_core
verdict_message contract account new_owner round silent =
    message_core domain_verdict contract account new_owner round ++ bool_byte silent ∷ []

-- The 32 bytes of an ed25519 key.
unfoldable pub ed25519_key : PublicKey → Option Text
ed25519_key key =
    let bytes = as_bytes key in
    if not (length bytes == 33) || not (curve_tag key.curve_type == 0)
    then none
    else some key.key_data

unfoldable pub verify : RecoveryLib → Text → Text → PublicKey → Bool
unfolding ed25519_key
verify lib message signature key = elim (ed25519_key key) [
  | none ↦ false
  | some public_key ↦
      if or_else (lib.is_weak public_key) true
      then false
      else lib.ed25519_verify signature message public_key
]

-- `keys.contains(key)`
unfoldable pub contains : PublicKey → List PublicKey → Bool
contains key [] = false
contains key (k ∷ keys) = key_eq key k || contains key keys

-- The loop over the signatures: the keys that it has counted at its end.
unfoldable pub count_signers :
    RecoveryLib → Text → List WatcherSignature → List PublicKey → List PublicKey → List PublicKey
count_signers lib message [] watchers counted = counted
count_signers lib message (w ∷ signatures) watchers counted =
    let skip = not (contains w.public_key watchers) || contains w.public_key counted in
    let counted' =
      if not skip && verify lib message w.signature w.public_key
      then counted ++ w.public_key ∷ []
      else counted in
    count_signers lib message signatures watchers counted'

unfoldable pub verify_quorum :
    RecoveryLib → Text → List WatcherSignature → List PublicKey → ℕ → Bool
unfolding count_signers
verify_quorum lib message signatures watchers threshold =
    leb threshold (length (count_signers lib message signatures watchers []) % 2 ^ 32)

abbrev pub action_add_key : ℕ
action_add_key = 5

-- tx.rs
unfoldable pub add_key_tx : Text → PublicKey → ℕ → Text → PublicKey → Text
unfolding push_str to_le_bytes
add_key_tx account signing_key nonce block_hash new_key =
    push_str account
    ++ as_bytes signing_key
    ++ to_le_bytes 8 nonce
    ++ push_str account
    ++ block_hash
    ++ to_le_bytes 4 1
    ++ (action_add_key ∷ as_bytes new_key)
    ++ to_le_bytes 8 0
    ++ 1 ∷ []
