-- ===== src/Signer/Owners.antt =====
-- contracts/active-signer/src/lib.rs: the admins, the installation of a wallet, its owner and its
-- freezing.
use hos_tla_contracts.Base.{
  Bool, Option, Text, [], add_member, contains_key, drop_member, ensure, false, if◌then◌else◌,
  insert, leb, length, lookup, ltb, member, none, not, ok, ok_or, reject, some, text_eq, true, ℕ,
  ◌&&◌, ◌==◌, ◌>>=◌, ◌>>◌, ◌||◌, ◌∷◌,
}
use hos_tla_contracts.Common.Keys.{is_ed25519}
use hos_tla_contracts.Host.{Host, PublicKey}
use hos_tla_contracts.Signer.Errors.{
  Answer, bad_key, bad_signature, last_admin, mpc_not_ed25519, no_signer, nonce_rejected,
  only_admin, only_minter, only_recovery, owner_changed, signer_exists, signer_mismatch,
  unauthorized, wallet_frozen, wallet_not_frozen, wallet_not_under_minter, wrong_chain,
}
use hos_tla_contracts.Signer.Payloads.{freeze_tag, mainnet, verify_tagged}
use hos_tla_contracts.Signer.Types.{
  ActiveSigner, FreezeMessage, SignerEntry, SignerLib, is_self_frozen, is_unfrozen, recovery_frozen,
  self_frozen, unfrozen,
}

-- The first place at which the rest of the text is the suffix; there is at most one.
unfoldable pub strip_suffix : Text → Text → Option Text
unfolding text_eq
strip_suffix suffix [] = if text_eq [] suffix then some [] else none
strip_suffix suffix (c ∷ s) =
    let rest = strip_suffix suffix s in
    if text_eq (c ∷ s) suffix
    then some []
    else elim rest [ none ↦ none | some label ↦ some (c ∷ label) ]

abbrev pub dot : ℕ
dot = 46

unfoldable pub contains_dot : Text → Bool
contains_dot [] = false
contains_dot (c ∷ s) = c == dot || contains_dot s

unfoldable pub is_label : Text → Bool
is_label [] = false
is_label (c ∷ s) = not (contains_dot (c ∷ s))

unfoldable pub is_direct_subaccount : Text → Text → Bool
unfolding strip_suffix is_label
is_direct_subaccount wallet parent = elim (strip_suffix parent wallet) [
  | none ↦ false
  | some prefix ↦ elim (strip_suffix (dot ∷ []) prefix) [
    | none ↦ false
    | some label ↦ is_label label
  ]
]

abbrev pub min_timeout_secs : ℕ
min_timeout_secs = 60

abbrev pub max_timeout_secs : ℕ
max_timeout_secs = 2592000

module _ {Nonces : Type 0} where
  unfoldable pub assert_admin : Host → ActiveSigner Nonces → Answer (Unit {0})
  assert_admin env s = ensure (member env.predecessor s.admins) only_admin

  unfoldable pub assert_minter : Host → ActiveSigner Nonces → Answer (Unit {0})
  assert_minter env s = ensure (member env.predecessor s.minters) only_minter

  -- `none` where the `require!` fails.
  unfoldable pub new : Text → Text → Text → Text → ℕ → Option (ActiveSigner Nonces)
  new admin marketplace_authority recovery_authority mpc_signer timeout_secs =
      if leb min_timeout_secs timeout_secs && leb timeout_secs max_timeout_secs
      then some (record {
        admins = admin ∷ [];
        minters = [];
        marketplace_authority = marketplace_authority;
        recovery_authority = recovery_authority;
        mpc_signer = mpc_signer;
        timeout_secs = timeout_secs;
        signers = [];
      })
      else none

  unfoldable pub add_minter : Host → Text → ActiveSigner Nonces → Answer (ActiveSigner Nonces)
  unfolding assert_admin
  add_minter env minter s =
      assert_admin env s >> ok (record s { minters = add_member minter s.minters })

  unfoldable pub remove_minter : Host → Text → ActiveSigner Nonces → Answer (ActiveSigner Nonces)
  unfolding assert_admin
  remove_minter env minter s =
      assert_admin env s >> ok (record s { minters = drop_member minter s.minters })

  unfoldable pub add_admin : Host → Text → ActiveSigner Nonces → Answer (ActiveSigner Nonces)
  unfolding assert_admin
  add_admin env admin s = assert_admin env s >> ok (record s { admins = add_member admin s.admins })

  unfoldable pub remove_admin : Host → Text → ActiveSigner Nonces → Answer (ActiveSigner Nonces)
  unfolding assert_admin
  remove_admin env admin s = do
    assert_admin env s
    ensure (ltb 1 (length s.admins)) last_admin
    ok (record s { admins = drop_member admin s.admins })

module _ {Nonces : Type 0} (lib : SignerLib Nonces) where
  abbrev pub parse_key : Text → Answer Text
  parse_key s = ok_or (lib.parse_ed25519 s) bad_key

  unfoldable pub install_signer :
      Host → Text → Text → PublicKey → ActiveSigner Nonces → Answer (ActiveSigner Nonces)
  unfolding assert_minter is_ed25519
  install_signer env wallet public_key mpc_public_key s = do
    assert_minter env s
    ensure (is_direct_subaccount wallet env.predecessor) wallet_not_under_minter
    reject (contains_key wallet s.signers) signer_exists
    ensure (is_ed25519 mpc_public_key) mpc_not_ed25519
    key ← parse_key public_key
    let entry : SignerEntry Nonces = record {
      public_key = key;
      mpc_public_key = mpc_public_key;
      nonces = lib.fresh_nonces s.timeout_secs;
      freeze_nonces = lib.fresh_nonces s.timeout_secs;
      last_signed_at = 0;
      frozen = unfrozen;
    }
    ok (record s { signers = insert wallet entry s.signers })

  -- `expected_current`, if it is given, is the key that the entry has.
  abbrev pub has_expected : Option Text → SignerEntry Nonces → Answer Bool
  has_expected none entry = ok true
  has_expected (some expected) entry =
      parse_key expected >>= λ key. ok (text_eq entry.public_key key)

  unfoldable pub swap_owner :
      Host → Text → Text → Option Text → ActiveSigner Nonces → Answer (ActiveSigner Nonces × Bool)
  unfolding is_unfrozen
  swap_owner env wallet new_public_key expected_current s = do
    key ← parse_key new_public_key
    let marketplace = text_eq env.predecessor s.marketplace_authority
    let recovery = text_eq env.predecessor s.recovery_authority
    ensure (marketplace || recovery) unauthorized
    entry ← ok_or (lookup wallet s.signers) no_signer
    if marketplace
        then ensure (is_unfrozen entry.frozen) wallet_frozen
        else reject (is_unfrozen entry.frozen) wallet_not_frozen
    expected ← has_expected expected_current entry
    let swapped : SignerEntry Nonces = record entry {
      frozen = unfrozen;
      public_key = key;
      nonces = lib.fresh_nonces s.timeout_secs;
      freeze_nonces = lib.fresh_nonces s.timeout_secs;
    }
    if expected
        then ok (record s { signers = insert wallet swapped s.signers }, true)
        else ok (s, false)

  unfoldable pub self_freeze :
      Host → Text → FreezeMessage → Text → ActiveSigner Nonces → Answer (ActiveSigner Nonces)
  unfolding verify_tagged
  self_freeze env wallet msg proof s = do
    ensure (text_eq msg.chain_id mainnet) wrong_chain
    ensure (text_eq msg.signer_id wallet) signer_mismatch
    entry ← ok_or (lookup wallet s.signers) no_signer
    ensure (verify_tagged lib freeze_tag (lib.borsh_freeze msg) entry.public_key proof)
        bad_signature
    spent ←
        ok_or
          (lib.commit env.block_timestamp msg.nonce msg.created_at_secs msg.timeout_secs
            entry.freeze_nonces)
          nonce_rejected
    let entry' : SignerEntry Nonces = record entry { freeze_nonces = spent; frozen = self_frozen }
    ok (record s { signers = insert wallet entry' s.signers })

  unfoldable pub freeze :
      Host → Text → Option Text → ActiveSigner Nonces → Answer (ActiveSigner Nonces)
  unfolding is_self_frozen
  freeze env wallet expected_current s = do
    ensure (text_eq env.predecessor s.recovery_authority) only_recovery
    entry ← ok_or (lookup wallet s.signers) no_signer
    expected ← has_expected expected_current entry
    ensure expected owner_changed
    let frozen' = if is_self_frozen entry.frozen then entry.frozen else recovery_frozen
    ok (record s { signers = insert wallet (record entry { frozen = frozen' }) s.signers })

  unfoldable pub unfreeze : Host → Text → ActiveSigner Nonces → Answer (ActiveSigner Nonces)
  unfolding is_self_frozen
  unfreeze env wallet s = do
    ensure (text_eq env.predecessor s.recovery_authority) only_recovery
    entry ← ok_or (lookup wallet s.signers) no_signer
    if is_self_frozen entry.frozen
        then ok s
        else ok
            (record s { signers = insert wallet (record entry { frozen = unfrozen }) s.signers })
