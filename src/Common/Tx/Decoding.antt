-- ===== src/Common/Tx/Decoding.antt =====
-- A decoder for the bytes of a transaction, and that it reads back what the builder wrote.
use hos_tla_contracts.Base.{
  List, Option, Text, [], ap, append_assoc, arith, if◌then◌else◌, length, none, refl, some, suc,
  sym, to_le_bytes, u128_max, u32_max, u64_max, zero, ℕ, ◌%◌, ◌*◌, ◌++◌, ◌+◌, ◌/◌, ◌<◌, ◌==◌, ◌^◌,
  ◌∙◌, ◌∷◌, ◌≡◌, ◌≤◌,
}
use hos_tla_contracts.Common.Tx.{
  TxAction, action_function_call, action_transfer, build_transaction, function_call, transfer_near,
  write_action, write_actions, write_bytes, write_header, write_str,
}
use hos_tla_contracts.Host.{CurveType, PublicKey, as_bytes, curve_tag}

abbrev and_then : {A B : Type 0} → Option A → (A → Option B) → Option B
and_then none f = none
and_then (some a) f = f a

unfoldable read_le : ℕ → Text → Option (ℕ × Text)
read_le zero b = some (0, b)
read_le (suc w) [] = none
read_le (suc w) (x ∷ b) = and_then (read_le w b) (λ r. some (x + 256 * r.0, r.1))

unfoldable take_bytes : ℕ → Text → Option (Text × Text)
take_bytes zero b = some ([], b)
take_bytes (suc n) [] = none
take_bytes (suc n) (x ∷ b) = and_then (take_bytes n b) (λ r. some (x ∷ r.0, r.1))

-- 256 to the power of the width.
abbrev word_limit : ℕ → ℕ
word_limit zero = 1
word_limit (suc w) = 256 * word_limit w

read_le-to_le_bytes :
    (w n : ℕ) (rest : Text)
    → n < word_limit w
    → read_le w (to_le_bytes w n ++ rest) ≡ some (n, rest)
unfolding read_le to_le_bytes
read_le-to_le_bytes zero n rest h = ground arith
read_le-to_le_bytes (suc w) n rest h =
    let below : n / 256 < word_limit w = omega (arith, h) in
    let split : n % 256 + 256 * (n / 256) ≡ n = omega arith in
    rw (read_le-to_le_bytes w (n / 256) rest below, split) refl

take_bytes-append : (a rest : Text) → take_bytes (length a) (a ++ rest) ≡ some (a, rest)
unfolding take_bytes
take_bytes-append [] rest = refl
take_bytes-append (x ∷ a) rest = rw (take_bytes-append a rest) refl

unfoldable read_bytes : Text → Option (Text × Text)
read_bytes b = and_then (read_le 4 b) (λ r. take_bytes r.0 r.1)

read_bytes-write_bytes :
    (s rest : Text) → length s ≤ u32_max → read_bytes (write_bytes s ++ rest) ≡ some (s, rest)
unfolding read_bytes write_bytes
read_bytes-write_bytes s rest h =
    let size : length s % 2 ^ 32 ≡ length s = omega (arith, h) in
    rw
      (
        append_assoc (to_le_bytes 4 (length s % 2 ^ 32)) s rest,
        size,
        read_le-to_le_bytes 4 (length s) (s ++ rest) (omega (arith, h)),
      )
      (take_bytes-append s rest)

-- What the bytes of a transaction say.
pub record Transaction : Type 0 where
  pub signer : Text
  pub public_key : PublicKey
  pub nonce : ℕ
  pub receiver : Text
  pub block_hash : Text
  pub actions : List TxAction

abbrev key_length : CurveType → ℕ
key_length CurveType.ed25519 = 32
key_length CurveType.secp256k1 = 64

unfoldable read_key_data : CurveType → Text → Option (PublicKey × Text)
read_key_data curve b =
    and_then (take_bytes (key_length curve) b)
      (λ r. some (record { curve_type = curve; key_data = r.0 }, r.1))

unfoldable read_key : Text → Option (PublicKey × Text)
read_key (zero ∷ b) = read_key_data CurveType.ed25519 b
read_key (suc zero ∷ b) = read_key_data CurveType.secp256k1 b
read_key b = none

abbrev IsKey : PublicKey → Type 0
IsKey k = length k.key_data ≡ key_length k.curve_type

read_key-tagged :
    (curve : CurveType) (d rest : Text)
    → length d ≡ key_length curve
    → read_key (curve_tag curve ∷ d ++ rest)
      ≡ some (record { curve_type = curve; key_data = d }, rest)
unfolding read_key read_key_data
read_key-tagged CurveType.ed25519 d rest h = rw (← h, take_bytes-append d rest) refl
read_key-tagged CurveType.secp256k1 d rest h = rw (← h, take_bytes-append d rest) refl

read_key-as_bytes :
    (k : PublicKey) (rest : Text) → IsKey k → read_key (as_bytes k ++ rest) ≡ some (k, rest)
read_key-as_bytes k rest h = read_key-tagged k.curve_type k.key_data rest h

-- The numbers and texts of an action fit the words that carry them.
abbrev FitsAction : TxAction → Type 0
FitsAction (function_call method_name args gas deposit) =
    (length method_name ≤ u32_max)
    × (length args ≤ u32_max)
    × (gas ≤ u64_max)
    × (deposit ≤ u128_max)
FitsAction (transfer_near deposit) = deposit ≤ u128_max

unfoldable read_call : Text → Option (TxAction × Text)
read_call b = and_then (read_bytes b) (λ m. and_then (read_bytes m.1) (λ a.
    and_then (read_le 8 a.1)
      (λ g. and_then (read_le 16 g.1) (λ d. some (function_call m.0 a.0 g.0 d.0, d.1)))))

unfoldable read_transfer : Text → Option (TxAction × Text)
read_transfer b = and_then (read_le 16 b) (λ d. some (transfer_near d.0, d.1))

unfoldable read_action : Text → Option (TxAction × Text)
read_action (tag ∷ b) =
    if tag == action_function_call
    then read_call b
    else if tag == action_transfer
    then read_transfer b
    else none
read_action [] = none

read_call-fields :
    (m a rest : Text) (g d : ℕ)
    → FitsAction (function_call m a g d)
    → read_call
        (write_bytes m ++ (write_bytes a ++ (to_le_bytes 8 g ++ (to_le_bytes 16 d ++ rest))))
      ≡ some (function_call m a g d, rest)
unfolding read_call
read_call-fields m a rest g d (hm, ha, hg, hd) =
    rw
      (
        read_bytes-write_bytes m _ hm,
        read_bytes-write_bytes a _ ha,
        read_le-to_le_bytes 8 g (to_le_bytes 16 d ++ rest) (omega (arith, hg)),
        read_le-to_le_bytes 16 d rest (omega (arith, hd)),
      )
      refl

read_action-write_action :
    (a : TxAction) (rest : Text)
    → FitsAction a
    → read_action (write_action a ++ rest) ≡ some (a, rest)
unfolding read_action read_transfer write_action write_str
read_action-write_action (function_call m a g d) rest h =
    simp (append_assoc, read_call-fields m a rest g d h)
read_action-write_action (transfer_near d) rest h =
    rw (read_le-to_le_bytes 16 d rest (omega (arith, h))) refl

unfoldable read_actions : ℕ → Text → Option (List TxAction × Text)
read_actions zero b = some ([], b)
read_actions (suc n) b =
    and_then (read_action b) (λ a. and_then (read_actions n a.1) (λ r. some (a.0 ∷ r.0, r.1)))

abbrev FitsActions : List TxAction → Type 0
FitsActions [] = Unit {0}
FitsActions (a ∷ actions) = FitsAction a × FitsActions actions

read_actions-write_actions :
    (actions : List TxAction) (rest : Text)
    → FitsActions actions
    → read_actions (length actions) (write_actions actions ++ rest) ≡ some (actions, rest)
unfolding read_actions write_actions
read_actions-write_actions [] rest h = refl
read_actions-write_actions (a ∷ actions) rest (fits, others) =
    rw
      (
        append_assoc (write_action a) (write_actions actions) rest,
        read_action-write_action a (write_actions actions ++ rest) fits,
        read_actions-write_actions actions rest others,
      )
      refl

unfoldable read_transaction : Text → Option (Transaction × Text)
read_transaction b = and_then (read_bytes b) (λ s. and_then (read_key s.1) (λ k.
    and_then (read_le 8 k.1) (λ n. and_then (read_bytes n.1) (λ r.
      and_then (take_bytes 32 r.1) (λ h. and_then (read_le 4 h.1) (λ c.
        and_then (read_actions c.0 c.1) (λ a. some (
          record {
            signer = s.0;
            public_key = k.0;
            nonce = n.0;
            receiver = r.0;
            block_hash = h.0;
            actions = a.0;
          },
          a.1,
        ))))))))

abbrev pub bytes_of : Transaction → Text
bytes_of t = build_transaction t.signer t.public_key t.nonce t.receiver t.block_hash t.actions

-- The texts, the key and the numbers fit their places in the layout.
pub record FitsLayout (t : Transaction) : Type 0 where
  pub signer_fits : length t.signer ≤ u32_max
  pub key_fits : IsKey t.public_key
  pub nonce_fits : t.nonce ≤ u64_max
  pub receiver_fits : length t.receiver ≤ u32_max
  pub hash_fits : length t.block_hash ≡ 32
  pub count_fits : length t.actions ≤ u32_max
  pub actions_fit : FitsActions t.actions

read_transaction-bytes_of :
    (t : Transaction) (rest : Text)
    → FitsLayout t
    → read_transaction (bytes_of t ++ rest) ≡ some (t, rest)
unfolding read_transaction build_transaction write_header write_str
read_transaction-bytes_of t rest f =
    let count : length t.actions % 2 ^ 32 ≡ length t.actions = omega (arith, f.count_fits) in
    let listed = write_actions t.actions ++ rest in
    let tail = to_le_bytes 4 (length t.actions) ++ listed in
    let body = write_bytes t.receiver ++ (t.block_hash ++ tail) in
    let hash : take_bytes 32 (t.block_hash ++ tail) ≡ some (t.block_hash, tail) =
      rw (← f.hash_fits) (take_bytes-append t.block_hash tail) in
    simp (
      append_assoc,
      count,
      read_bytes-write_bytes t.signer (as_bytes t.public_key ++ (to_le_bytes 8 t.nonce ++ body))
          f.signer_fits,
      read_key-as_bytes t.public_key (to_le_bytes 8 t.nonce ++ body) f.key_fits,
      read_le-to_le_bytes 8 t.nonce body (omega (arith, f.nonce_fits)),
      read_bytes-write_bytes t.receiver (t.block_hash ++ tail) f.receiver_fits,
      hash,
      read_le-to_le_bytes 4 (length t.actions) listed (omega (arith, f.count_fits)),
      read_actions-write_actions t.actions rest f.actions_fit,
    )

some-injective : {A : Type 0} {a b : A} → some a ≡ some b → a ≡ b
some-injective h = cc

-- Two transactions whose parts fit the layout (lengths and counts a u32, the nonce a u64, amounts
-- a u128 and gas a u64, a block hash of 32 bytes, a key of its curve's length) and whose built
-- bytes are equal are the same transaction.
pub bytes_of-injective :
    (t u : Transaction) → FitsLayout t → FitsLayout u → bytes_of t ≡ bytes_of u → t ≡ u
bytes_of-injective t u ft fu same =
    let read_t = read_transaction-bytes_of t [] ft in
    let read_u = read_transaction-bytes_of u [] fu in
    ap (λ r. r.0) (some-injective (sym read_t ∙ ap (λ b. read_transaction (b ++ [])) same ∙ read_u))
