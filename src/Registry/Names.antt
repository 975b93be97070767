-- ===== src/Registry/Names.antt =====
-- contracts/tla-registry/src/types.rs: the names of sub-accounts and the keys made from them.
use hos_tla_contracts.Base.{
  Bool, Text, [], ensure, false, leb, length, ltb, reject, true, ℕ, ◌%◌, ◌&&◌, ◌++◌, ◌+◌, ◌==◌,
  ◌>>◌, ◌||◌, ◌∷◌,
}
use hos_tla_contracts.Registry.Errors.{
  Reply, disallowed_character, edge_separator, invalid_name, length_out_of_bounds,
}

unfoldable pub is_name_byte : ℕ → Bool
is_name_byte c = (leb b'a' c && leb c b'z') || (leb b'0' c && leb c b'9') || c == b'-' || c == b'_'

unfoldable pub all_name_bytes : Text → Bool
unfolding is_name_byte
all_name_bytes [] = true
all_name_bytes (c ∷ name) = is_name_byte c && all_name_bytes name

unfoldable pub is_separator : ℕ → Bool
is_separator c = c == b'-' || c == b'_'

unfoldable pub starts_with_separator : Text → Bool
unfolding is_separator
starts_with_separator [] = false
starts_with_separator (c ∷ name) = is_separator c

unfoldable pub ends_with_separator : Text → Bool
unfolding is_separator
ends_with_separator [] = false
ends_with_separator (c ∷ []) = is_separator c
ends_with_separator (c ∷ d ∷ name) = ends_with_separator (d ∷ name)

unfoldable pub validate_name : Text → Reply (Unit {0})
unfolding all_name_bytes starts_with_separator ends_with_separator
validate_name name = do
  reject (length name == 0 || ltb 60 (length name)) (invalid_name length_out_of_bounds)
  ensure (all_name_bytes name) (invalid_name disallowed_character)
  reject (starts_with_separator name || ends_with_separator name) (invalid_name edge_separator)

-- `format!("{}.{}", name, tla_id)`
unfoldable pub sub_account_key : Text → Text → Text
sub_account_key tla_id name = name ++ (b'.' ∷ tla_id)

-- The cast to `u8` wraps.
unfoldable pub total_name_length : Text → Text → ℕ
total_name_length tla_id name = (length name + 1 + length tla_id) % 256
