-- ===== src/Common/Tx.antt =====
-- crates/hos-common/src/tx.rs: the bytes of a NEAR transaction. A function that the source gives a
-- buffer returns here the bytes that it appends.
pub mod Decoding
use hos_tla_contracts.Base.{
  List, Text, [], codes, length, suc, to_le_bytes, zero, ℕ, ◌%◌, ◌++◌, ◌/◌, ◌^◌, ◌∷◌,
}
use hos_tla_contracts.Host.{PublicKey, as_bytes}

-- `Base64VecU8`, `Gas` and `NearToken` are their bytes and numbers.
pub data TxAction : Type 0 where
  function_call : (method_name args : Text) (gas deposit : ℕ) → TxAction
  transfer_near : (deposit : ℕ) → TxAction

abbrev pub action_function_call : ℕ
action_function_call = 2

abbrev pub action_transfer : ℕ
action_transfer = 3

unfoldable pub mpc_path : Text → Text
mpc_path account = codes "hos-tla/" ++ account

unfoldable pub write_bytes : Text → Text
write_bytes bytes = to_le_bytes 4 (length bytes % 2 ^ 32) ++ bytes

unfoldable pub write_str : Text → Text
write_str s = write_bytes s

unfoldable pub write_header : Text → PublicKey → ℕ → Text → Text → ℕ → Text
unfolding write_str
write_header signer public_key nonce receiver block_hash action_count =
    write_str signer
    ++ as_bytes public_key
    ++ to_le_bytes 8 nonce
    ++ write_str receiver
    ++ block_hash
    ++ to_le_bytes 4 (action_count % 2 ^ 32)

-- One turn of the loop over the actions.
unfoldable pub write_action : TxAction → Text
unfolding write_str
write_action (function_call method_name args gas deposit) =
    action_function_call ∷ write_str method_name
    ++ write_bytes args
    ++ to_le_bytes 8 gas
    ++ to_le_bytes 16 deposit
write_action (transfer_near deposit) = action_transfer ∷ to_le_bytes 16 deposit

unfoldable pub write_actions : List TxAction → Text
unfolding write_action
write_actions [] = []
write_actions (action ∷ actions) = write_action action ++ write_actions actions

unfoldable pub build_transaction : Text → PublicKey → ℕ → Text → Text → List TxAction → Text
unfolding write_header write_actions
build_transaction signer public_key nonce receiver block_hash actions =
    write_header signer public_key nonce receiver block_hash (length actions)
    ++ write_actions actions

abbrev pub hex : Text
hex = codes "0123456789abcdef"

-- `HEX[i]`
abbrev pub hex_digit : ℕ → ℕ
hex_digit i = nth i hex
  where
    nth : ℕ → Text → ℕ
    nth n [] = 0
    nth zero (c ∷ cs) = c
    nth (suc n) (c ∷ cs) = nth n cs

unfoldable pub to_hex : Text → Text
to_hex [] = []
to_hex (byte ∷ bytes) = hex_digit (byte / 16) ∷ hex_digit (byte % 16) ∷ to_hex bytes
