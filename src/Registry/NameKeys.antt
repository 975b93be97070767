-- ===== src/Registry/NameKeys.antt =====
-- Names and keys (contracts/tla-registry/src/types.rs): what is accepted, and that a key determines
-- the name and the TLA.
use hos_tla_contracts.Base.{
  Bool-cases, List, Text, [], ap, arith, false, if◌then◌else◌, inl, inr, length, length-append, ok,
  refl, sym, true, ℕ, ◌++◌, ◌==◌, ◌↔◌, ◌∙◌, ◌∷◌, ◌≡◌, ◌≤◌, ◌⊎◌,
}
use hos_tla_contracts.Registry.Names.{
  all_name_bytes, ends_with_separator, is_name_byte, is_separator, starts_with_separator,
  sub_account_key, total_name_length, validate_name,
}

abbrev pub IsNameByte : ℕ → Type 0
IsNameByte c = ((b'a' ≤ c) × (c ≤ b'z')) ⊎ ((b'0' ≤ c) × (c ≤ b'9')) ⊎ (c ≡ b'-') ⊎ (c ≡ b'_')

abbrev pub IsSeparator : ℕ → Type 0
IsSeparator c = (c ≡ b'-') ⊎ (c ≡ b'_')

abbrev pub All {ℓ κ} : {A : Type ℓ} → (A → Type κ) → List A → Type κ
All P [] = Unit
All P (x ∷ xs) = P x × All P xs

-- A name of 1 to 60 bytes, each allowed, whose first and last bytes are no separators.
pub record IsValidName (name : Text) : Type 0 where
  pub nonempty : 1 ≤ length name
  pub short : length name ≤ 60
  pub allowed : All IsNameByte name
  pub first : (c : ℕ) (rest : Text) → name ≡ c ∷ rest → ¬ IsSeparator c
  pub last : (c : ℕ) (front : Text) → name ≡ front ++ c ∷ [] → ¬ IsSeparator c

is_name_byte_iff : (c : ℕ) → (is_name_byte c ≡ true) ↔ IsNameByte c
unfolding is_name_byte
is_name_byte_iff c = ground arith

all_name_bytes_iff : (name : Text) → (all_name_bytes name ≡ true) ↔ All IsNameByte name
unfolding all_name_bytes
all_name_bytes_iff [] = (λ h. tt, λ h. refl)
all_name_bytes_iff (c ∷ name) = ground (arith, is_name_byte_iff c, all_name_bytes_iff name)

ends_with_separator-append :
    (front : Text) (c : ℕ) → ends_with_separator (front ++ c ∷ []) ≡ is_separator c
unfolding ends_with_separator
ends_with_separator-append [] c = refl
ends_with_separator-append (d ∷ []) c = refl
ends_with_separator-append (d ∷ e ∷ front) c = ends_with_separator-append (e ∷ front) c

-- The name is given back by the bytes before its first dot.
before_dot : Text → Text
before_dot [] = []
before_dot (c ∷ rest) = let tail = before_dot rest in if c == b'.' then [] else c ∷ tail

before_dot-key :
    (tla_id name : Text)
    → all_name_bytes name ≡ true
    → before_dot (sub_account_key tla_id name) ≡ name
unfolding before_dot sub_account_key all_name_bytes is_name_byte
before_dot-key tla_id [] h = refl
before_dot-key tla_id (c ∷ name) h = ground (arith, before_dot-key tla_id name)

append_cancel : (front : Text) (a b : Text) → front ++ a ≡ front ++ b → a ≡ b
append_cancel [] a b h = h
append_cancel (c ∷ front) a b h = append_cancel front a b (cc)

is_separator_iff : (c : ℕ) → (is_separator c ≡ true) ↔ IsSeparator c
unfolding is_separator
is_separator_iff c = ground arith

plain_byte : (c : ℕ) → is_separator c ≡ false → ¬ IsSeparator c
plain_byte c h i = cc (h, (is_separator_iff c).1 i)

plain_byte_test : (c : ℕ) → ¬ IsSeparator c → is_separator c ≡ false
plain_byte_test c h = elim (Bool-cases (is_separator c)) [
  | inl sep ↦ absurd (h ((is_separator_iff c).0 sep))
  | inr plain ↦ plain
]

-- A nonempty text ends in a byte.
last_split : (c : ℕ) (rest : Text) → (front : Text) × (d : ℕ) × (c ∷ rest ≡ front ++ d ∷ [])
last_split c [] = ([], c, refl)
last_split c (e ∷ rest) =
    let (front, d, h) = last_split e rest in (c ∷ front, d, ap (λ (t : Text). c ∷ t) h)

starts_plain :
    (name : Text)
    → ((c : ℕ) (rest : Text) → name ≡ c ∷ rest → ¬ IsSeparator c)
    → starts_with_separator name ≡ false
unfolding starts_with_separator
starts_plain [] h = refl
starts_plain (c ∷ rest) h = plain_byte_test c (h c rest refl)

ends_plain :
    (name : Text)
    → ((c : ℕ) (front : Text) → name ≡ front ++ c ∷ [] → ¬ IsSeparator c)
    → ends_with_separator name ≡ false
unfolding ends_with_separator
ends_plain [] h = refl
ends_plain (c ∷ rest) h =
    let (front, d, e) = last_split c rest in
    ap ends_with_separator e ∙ ends_with_separator-append front d ∙ plain_byte_test d (h d front e)

valid_parts :
    (name : Text)
    → (validate_name name ≡ ok tt) ↔ (
        (1 ≤ length name)
        × (length name ≤ 60)
        × (all_name_bytes name ≡ true)
        × (starts_with_separator name ≡ false)
        × (ends_with_separator name ≡ false))
unfolding validate_name
valid_parts name = ground arith

valid_of_name : (name : Text) → validate_name name ≡ ok tt → IsValidName name
valid_of_name name h =
    let (nonempty, short, allowed, first, last) = (valid_parts name).0 h in
    record {
      nonempty = nonempty;
      short = short;
      allowed = (all_name_bytes_iff name).0 allowed;
      first = λ c rest e. plain_byte c (unfold starts_with_separator in rw e at first);
      last = λ c front e. plain_byte c (sym (ends_with_separator-append front c) ∙ (rw e at last));
    }

-- A name is accepted exactly when it has 1 to 60 bytes, each a lower-case letter, a digit, a dash
-- or an underscore, and neither its first nor its last byte is a dash or an underscore.
pub validate_name_iff : (name : Text) → (validate_name name ≡ ok tt) ↔ IsValidName name
validate_name_iff name = (
  valid_of_name name,
  λ v. (valid_parts name).1 (
    v.nonempty,
    v.short,
    (all_name_bytes_iff name).1 v.allowed,
    starts_plain name v.first,
    ends_plain name v.last,
  ),
)

all_name_bytes_of_valid : (name : Text) → validate_name name ≡ ok tt → all_name_bytes name ≡ true
unfolding validate_name
all_name_bytes_of_valid name h = ground arith

-- Two accepted names whose keys under two TLAs are equal are the same name under the same TLA.
pub sub_account_key_injective :
    (tla_id tla_id' name name' : Text)
    → validate_name name ≡ ok tt
    → validate_name name' ≡ ok tt
    → sub_account_key tla_id name ≡ sub_account_key tla_id' name'
    → (name ≡ name') × (tla_id ≡ tla_id')
unfolding sub_account_key
sub_account_key_injective tla_id tla_id' name name' v v' e =
    let same : name ≡ name' = cc (
      before_dot-key tla_id name (all_name_bytes_of_valid name v),
      before_dot-key tla_id' name' (all_name_bytes_of_valid name' v'),
    ) in
    let dotted : b'.' ∷ tla_id ≡ b'.' ∷ tla_id' =
      append_cancel name' (b'.' ∷ tla_id) (b'.' ∷ tla_id') (rw same at e) in
    (same, cc)

-- For an accepted name and a TLA id of at most 64 bytes the cast to a byte loses nothing: the
-- total length is that of the key.
pub total_name_length_exact :
    (tla_id name : Text)
    → validate_name name ≡ ok tt
    → length tla_id ≤ 64
    → total_name_length tla_id name ≡ length (sub_account_key tla_id name)
unfolding total_name_length sub_account_key validate_name
total_name_length_exact tla_id name v h = ground (arith, length-append {0} name (b'.' ∷ tla_id))
