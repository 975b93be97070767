-- ===== src/Host.antt =====
-- What the contracts read of the NEAR host and of near-sdk: the call's context, and the functions of
-- near-sdk that they call. Every value is chosen by the environment.
use hos_tla_contracts.Base.{Bool, List, Option, Text, if◌then◌else◌, none, some, text_eq, ℕ, ◌∷◌}

-- `near_sdk::CurveType`, with the tag byte that `PublicKey::as_bytes` begins with.
pub data CurveType : Type 0 where
  ed25519 secp256k1 : CurveType

-- `near_sdk::PublicKey`: the curve and the key's own bytes.
pub record PublicKey : Type 0 where
  pub curve_type : CurveType
  pub key_data : Text

abbrev pub curve_tag : CurveType → ℕ
curve_tag ed25519 = 0
curve_tag secp256k1 = 1

-- `PublicKey::as_bytes`
abbrev pub as_bytes : PublicKey → Text
as_bytes k = curve_tag k.curve_type ∷ k.key_data

-- `==` on keys
unfoldable pub key_eq : PublicKey → PublicKey → Bool
key_eq a b = text_eq (as_bytes a) (as_bytes b)

-- The result of one joined promise, as `env::promise_result_checked` reports it.
pub data PromiseResult : Type 0 where
  successful : Text → PromiseResult
  failed : PromiseResult
  unreadable : PromiseResult

pub record Host : Type 0 where
  pub predecessor : Text
  pub current_account : Text
  pub attached_deposit : ℕ
  pub block_timestamp : ℕ
  pub account_balance : ℕ
  pub storage_byte_cost : ℕ
  pub storage_usage : ℕ
  pub promise_results : List PromiseResult
  -- `AccountId::from_str` accepts the text, which it then keeps.
  pub is_account_id : Text → Bool
  -- `PublicKey::to_string`
  pub key_to_string : PublicKey → Text
  -- `serde_json::from_slice::<U128>`
  pub parse_u128 : Text → Option ℕ

-- `key.parse::<AccountId>()`
abbrev pub parse_account : Host → Text → Option Text
parse_account env key = if env.is_account_id key then some key else none
