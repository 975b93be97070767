-- ===== src/Signer/Replay.antt =====
-- An authorization is spent when it is used: the same message is never accepted again before the
-- wallet's owner is swapped.
use hos_tla_contracts.Signer.Signing
use hos_tla_contracts.Base.{
  Bool, Text, ap, arith, false, insert, is_ok, lookup, lookup-insert, none, ok, some, text_eq_refl,
  ℕ, ◌≡◌, ◌≤◌,
}
use hos_tla_contracts.Host.{Host, PublicKey}
use hos_tla_contracts.Signer.Freezing.{Run, and_then_call, start}
use hos_tla_contracts.Signer.Life.{run-Evolves}
use hos_tla_contracts.Signer.Payloads.{message_tag, tx_tag, verify_tagged}
use hos_tla_contracts.Signer.System.{
  Carries, EntryChange, SignerMethod, Swaps, carries_message, carries_tx, changes_owner,
  freezes_itself, is_frozen_for_recovery, kept, run, signs, signs_for_market, swaps, thaws,
}
use hos_tla_contracts.Signer.Types.{ActiveSigner, SignerEntry, SignerLib}
use hos_tla_contracts.Signer.Wallets.{authorize_inv, submit_message_inv, submit_tx_inv}

-- What the crate documents of `Nonces`: a commit is refused when its nonce is already used or expired.
-- `spent now n created timeout w`: at the time `now` the window `w` has the commit behind it.
pub record RefusesReplay {Nonces : Type 0} (lib : SignerLib Nonces) : Type 1 where
  pub spent : (now n created timeout : ℕ) → Nonces → Type 0
  -- A commit that succeeds is behind the window that it leaves.
  pub commit_spends :
      (now n created timeout : ℕ) (w w' : Nonces)
      → lib.commit now n created timeout w ≡ some w'
      → spent now n created timeout w'
  -- It stays behind it through the passing of time and other commits.
  pub spent_later :
      (now now' n created timeout : ℕ) (w : Nonces)
      → now ≤ now'
      → spent now n created timeout w
      → spent now' n created timeout w
  pub spent_through :
      (now n created timeout n' created' timeout' : ℕ) (w w' : Nonces)
      → spent now n created timeout w
      → lib.commit now n' created' timeout' w ≡ some w'
      → spent now n created timeout w'
  -- What is behind it is used or expired.
  pub spent_refused :
      (now n created timeout : ℕ) (w : Nonces)
      → spent now n created timeout w
      → lib.commit now n created timeout w ≡ none

module _ {Nonces : Type 0} (lib : SignerLib Nonces) (law : RefusesReplay lib) where
  IsSpent : Text → ℕ → ℕ → ℕ → ActiveSigner Nonces → ℕ → Type 0
  IsSpent w n created timeout s now =
      (e : SignerEntry Nonces) × (lookup w s.signers ≡ some e)
      × law.spent now n created timeout e.nonces

  change_keeps_spent :
      (env : Host) (m : SignerMethod) (s : ActiveSigner Nonces) (w : Text)
      (e e' : SignerEntry Nonces) (n created timeout : ℕ)
      → ¬ Swaps m w
      → EntryChange lib env m s w e e'
      → law.spent env.block_timestamp n created timeout e.nonces
      → law.spent env.block_timestamp n created timeout e'.nonces
  change_keeps_spent env m s w e e' n created timeout o kept h = h
  change_keeps_spent env m s w e e' n created timeout o
        (signs n' c t spent' carried signed thawed committed) h =
      law.spent_through env.block_timestamp n created timeout n' c t e.nonces spent' h committed
  change_keeps_spent env m s w e e' n created timeout o
        (signs_for_market to actions n' hash asked caller thawed) h =
      h
  change_keeps_spent env m s w e e' n created timeout o
        (changes_owner text key expected asked parsed who) h =
      absurd (o (rw asked (swaps w text expected)))
  change_keeps_spent env m s w e e' n created timeout o
        (freezes_itself msg proof spent' asked chain own verified committed) h =
      h
  change_keeps_spent env m s w e e' n created timeout o
        (is_frozen_for_recovery expected asked caller other) h =
      h
  change_keeps_spent env m s w e e' n created timeout o (thaws asked caller other) h = h

  Run-IsSpent :
      {w : Text} (n created timeout : ℕ) {since : ℕ} {s : ActiveSigner Nonces}
      {s' : ActiveSigner Nonces} {now : ℕ}
      → Run lib w s since s' now
      → IsSpent w n created timeout s since
      → IsSpent w n created timeout s' now
  unfolding IsSpent
  Run-IsSpent n created timeout start spent = spent
  Run-IsSpent {w} n created timeout (and_then_call {u} {u'} {now} r env m later other done) spent =
      let (e, found, used) = Run-IsSpent n created timeout r spent in
      let (e', found', change) = run-Evolves lib env m w e u u' done found in
      let still = law.spent_later now env.block_timestamp n created timeout e.nonces later used in
      (e', found', change_keeps_spent env m u w e e' n created timeout other change still)

  spent_is_refused :
      (env : Host) (m : SignerMethod) (w : Text) (n created timeout : ℕ) (s : ActiveSigner Nonces)
      → Carries m w n created timeout
      → IsSpent w n created timeout s env.block_timestamp
      → is_ok (run lib env m s) ≡ false
  unfolding IsSpent run Signing.submit_signed_tx Signing.submit_signed_message Signing.authorize
  spent_is_refused env m w n created timeout s (carries_tx w' msg proof k hash) (e, found, used) =
      let refused = law.spent_refused env.block_timestamp n created timeout e.nonces used in
      ground arith
  spent_is_refused env m w n created timeout s (carries_message w' msg proof) (e, found, used) =
      let refused = law.spent_refused env.block_timestamp n created timeout e.nonces used in
      ground arith

  authorize-IsSpent :
      (env : Host) (w : Text) (n created timeout : ℕ) (verify : Text → Bool)
      (s s' : ActiveSigner Nonces) (k : PublicKey)
      → Signing.authorize lib env w n created timeout verify s ≡ ok (s', k)
      → IsSpent w n created timeout s' env.block_timestamp
  unfolding IsSpent
  authorize-IsSpent env w n created timeout verify s s' k h =
      let (e, spent', standing, thawed, verified, committed, written, key) =
        authorize_inv lib env w n created timeout verify s (s', k) h in
      let e' = record e { nonces = spent'; last_signed_at = env.block_timestamp } in
      let stored = lookup-insert w w e' s.signers in
      let signers : s'.signers ≡ insert w e' s.signers = ap (λ u. u.signers) written in
      (
        e',
        ground (arith, stored, signers, text_eq_refl w),
        law.commit_spends env.block_timestamp n created timeout e.nonces spent' committed,
      )

  run-IsSpent :
      (env : Host) (m : SignerMethod) (w : Text) (n created timeout : ℕ)
      (s s' : ActiveSigner Nonces)
      → Carries m w n created timeout
      → run lib env m s ≡ ok s'
      → IsSpent w n created timeout s' env.block_timestamp
  unfolding run
  run-IsSpent env m w n created timeout s s' (carries_tx w' msg proof k hash) h =
      let (key, signed) = submit_tx_inv lib env w msg proof k hash s s' h in
      authorize-IsSpent env w n created timeout
        (λ key. verify_tagged lib tx_tag (lib.borsh_tx msg) key proof) s s' key signed
  run-IsSpent env m w n created timeout s s' (carries_message w' msg proof) h =
      let (key, signed) = submit_message_inv lib env w msg proof s s' h in
      authorize-IsSpent env w n created timeout
        (λ key. verify_tagged lib message_tag (lib.borsh_message msg) key proof) s s' key signed

  -- If the replay window refuses used or expired numbers, a transaction or message request that
  -- was accepted for a wallet is refused with the same numbers, in a request of either kind,
  -- after any run of calls at later times that does not swap the wallet's owner.
  pub accepted_once :
      (env env' : Host) (m m' : SignerMethod) (w : Text) (n created timeout : ℕ)
      (s s' s'' : ActiveSigner Nonces)
      → Carries m w n created timeout
      → Carries m' w n created timeout
      → run lib env m s ≡ ok s'
      → Run lib w s' env.block_timestamp s'' env'.block_timestamp
      → is_ok (run lib env' m' s'') ≡ false
  accepted_once env env' m m' w n created timeout s s' s'' carried again done later =
      spent_is_refused env' m' w n created timeout s'' again (
        Run-IsSpent n created timeout later
          (run-IsSpent env m w n created timeout s s' carried done))
