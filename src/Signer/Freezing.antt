-- ===== src/Signer/Freezing.antt =====
-- Runs of the signer, and what holds of a wallet along them while its owner is not swapped.
use hos_tla_contracts.Signer.Signing
use hos_tla_contracts.Base.{
  List, Text, arith, false, is_ok, lookup, ok, refl, some, ℕ, ◌∙◌, ◌≡◌, ◌≤◌,
}
use hos_tla_contracts.Common.Tx.{TxAction}
use hos_tla_contracts.Host.{Host}
use hos_tla_contracts.Signer.Life.{run-Evolves}
use hos_tla_contracts.Signer.System.{
  EntryChange, SignerMethod, Swaps, changes_owner, freezes_itself, is_frozen_for_recovery, kept,
  run, signs, signs_for_market, swaps, thaws,
}
use hos_tla_contracts.Signer.Types.{
  ActiveSigner, MessageRequest, SignerEntry, SignerLib, TxMessage, is_self_frozen, is_unfrozen,
  self_frozen,
}

-- A run of successful calls none of which swaps the wallet's owner, from a state at one time to a
-- state at a later time.
pub data Run {Nonces : Type 0} (lib : SignerLib Nonces) (w : Text) (s : ActiveSigner Nonces)
    (since : ℕ) : ActiveSigner Nonces → ℕ → Type 0 where
  start : Run lib w s since s since
  and_then_call :
      {u u' : ActiveSigner Nonces} {now : ℕ}
      → Run lib w s since u now
      → (env : Host) (m : SignerMethod) → now ≤ env.block_timestamp
      → ¬ Swaps m w
      → run lib env m u ≡ ok u'
      → Run lib w s since u' env.block_timestamp

module _ {Nonces : Type 0} (lib : SignerLib Nonces) where
  -- A wallet that its owner froze, with the owner's key and the time of its last signature.
  abbrev pub IsSelfFrozen : Text → Text → ℕ → ActiveSigner Nonces → Type 0
  IsSelfFrozen w key signed_at s =
      (e : SignerEntry Nonces) × (lookup w s.signers ≡ some e)
      × (e.frozen ≡ self_frozen)
      × (e.public_key ≡ key)
      × (e.last_signed_at ≡ signed_at)

  change-IsSelfFrozen :
      (env : Host) (m : SignerMethod) (s : ActiveSigner Nonces) (w : Text)
      (e e' : SignerEntry Nonces)
      → ¬ Swaps m w
      → EntryChange lib env m s w e e'
      → e.frozen ≡ self_frozen
      → (e'.frozen ≡ self_frozen)
        × (e'.public_key ≡ e.public_key)
        × (e'.last_signed_at ≡ e.last_signed_at)
  unfolding is_unfrozen is_self_frozen
  change-IsSelfFrozen env m s w e e' o kept h = (h, refl, refl)
  change-IsSelfFrozen env m s w e e' o (signs n c t spent carried signed thawed committed) h =
      absurd (ground arith)
  change-IsSelfFrozen env m s w e e' o (signs_for_market to actions n hash asked caller thawed) h =
      absurd (ground arith)
  change-IsSelfFrozen env m s w e e' o (changes_owner text key expected asked parsed who) h =
      absurd (o (rw asked (swaps w text expected)))
  change-IsSelfFrozen env m s w e e' o
        (freezes_itself msg proof spent asked chain own verified committed) h =
      (refl, refl, refl)
  change-IsSelfFrozen env m s w e e' o (is_frozen_for_recovery expected asked caller other) h =
      absurd (ground arith)
  change-IsSelfFrozen env m s w e e' o (thaws asked caller other) h = absurd (ground arith)

  -- A wallet that its owner froze stays so, with the owner's key and the time of its last
  -- signature unchanged, through any run of calls that does not swap its owner.
  pub Run-IsSelfFrozen :
      {w key : Text} {signed_at since : ℕ} {s : ActiveSigner Nonces} {s' : ActiveSigner Nonces}
      {now : ℕ}
      → Run lib w s since s' now
      → IsSelfFrozen w key signed_at s
      → IsSelfFrozen w key signed_at s'
  Run-IsSelfFrozen start frozen = frozen
  Run-IsSelfFrozen {w} (and_then_call {u} {u'} r env m later other done) frozen =
      let (e, found, is_frozen, owner, last) = Run-IsSelfFrozen r frozen in
      let (e', found', change) = run-Evolves lib env m w e u u' done found in
      let (still, key_kept, time_kept) =
        change-IsSelfFrozen env m u w e e' other change is_frozen in
      (e', found', still, key_kept ∙ owner, time_kept ∙ last)

  -- The calls that have something signed for a wallet.
  pub data Requests : SignerMethod → Text → Type 0 where
    requests_tx :
        (w : Text) (msg : TxMessage) (proof : Text) (n : ℕ) (hash : Text)
        → Requests (SignerMethod.submit_signed_tx w msg proof n hash) w
    requests_message :
        (w : Text) (msg : MessageRequest) (proof : Text)
        → Requests (SignerMethod.submit_signed_message w msg proof) w
    requests_for_market :
        (w to : Text) (actions : List TxAction) (n : ℕ) (hash : Text)
        → Requests (SignerMethod.authority_sign_tx w to actions n hash) w

  -- For a wallet that is frozen, by its owner or by the recovery, no transaction, no message and
  -- no transaction of the marketplace goes through.
  pub frozen_signs_nothing :
      (env : Host) (m : SignerMethod) (w : Text) (e : SignerEntry Nonces) (s : ActiveSigner Nonces)
      → lookup w s.signers ≡ some e
      → is_unfrozen e.frozen ≡ false
      → Requests m w
      → is_ok (run lib env m s) ≡ false
  unfolding run Signing.submit_signed_tx Signing.submit_signed_message Signing.authority_sign_tx
      Signing.authorize
  frozen_signs_nothing env m w e s found frozen (requests_tx w' msg proof n hash) = ground arith
  frozen_signs_nothing env m w e s found frozen (requests_message w' msg proof) = ground arith
  frozen_signs_nothing env m w e s found frozen (requests_for_market w' to actions n hash) =
      ground arith
