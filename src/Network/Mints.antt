-- ===== src/Network/Mints.antt =====
-- A mint across the manager of a TLA (contracts/tla-manager) and the signer (contracts/active-signer):
-- the calls that the manager makes are performed, and their callbacks run with the results.
use hos_tla_contracts.Manager.Minting
use hos_tla_contracts.Signer.Owners
use hos_tla_contracts.Base.{
  Bool, List, Option, Text, err, false, if◌then◌else◌, none, ok, some, suc, true, zero, ℕ, ◌∷◌,
}
use hos_tla_contracts.Common.Keys.{MintOutcome}
use hos_tla_contracts.Host.{Host, PublicKey}
use hos_tla_contracts.Manager.Errors.{Managed}
use hos_tla_contracts.Manager.Types.{
  Chained, ManagerCall, ManagerCallback, TlaManager, create_account, derived_public_key,
  on_creation_failed, on_key_derived, on_signer_settled, on_wallet_created,
}
use hos_tla_contracts.Signer.Types.{ActiveSigner, SignerLib}

-- What the environment decides: the key that the MPC network derives, whether the account can be
-- created, and the contexts of the manager's callbacks and of the signer.
pub record MintEnv : Type 0 where
  pub derived : Option PublicKey
  pub creatable : Bool
  pub callback_host : Host
  pub signer_host : Host

-- The two contracts, and the amounts that have left the manager, the latest first.
pub record MintWorld (Nonces : Type 0) : Type 0 where
  pub manager : TlaManager
  pub signer : ActiveSigner Nonces
  pub moved : List (Text × ℕ)

pub data CallResult : Type 0 where
  key : Option PublicKey → CallResult
  done : (succeeded : Bool) → CallResult

-- What follows a callback: another call, the mint's outcome, or a panic.
pub data After : Type 0 where
  goes : Chained → After
  finished : MintOutcome → After
  panicked : After

module _ {Nonces : Type 0} (lib : SignerLib Nonces) (env : MintEnv) where
  -- A batch that fails leaves its transfer with the manager, and a call that fails changes nothing.
  unfoldable pub perform : ManagerCall → MintWorld Nonces → MintWorld Nonces × CallResult
  perform (derived_public_key mpc path predecessor domain_id) w = (w, key env.derived)
  perform (create_account account funding full_access_key) w =
      if env.creatable
      then (record w { moved = (account, funding) ∷ w.moved }, done true)
      else (w, done false)
  perform (ManagerCall.install_signer active_signer account public_key mpc_public_key) w =
      elim (Owners.install_signer lib env.signer_host account public_key mpc_public_key w.signer) [
        | ok signer ↦ (record w { signer = signer }, done true)
        | err e ↦ (w, done false)
      ]
  perform (ManagerCall.transfer_near to amount) w =
      (record w { moved = (to, amount) ∷ w.moved }, done true)

  abbrev resumed : Managed Chained → After
  resumed (ok chained) = goes chained
  resumed (err e) = panicked

  -- A callback with its call's result; a result of another kind does not deserialize.
  unfoldable pub resume : ManagerCallback → CallResult → TlaManager → After
  resume (on_key_derived account owner funding) (key derived) s =
      goes (Minting.key_derived account owner funding derived s)
  resume (on_key_derived account owner funding) (done succeeded) s =
      goes (Minting.key_derived account owner funding none s)
  resume (on_wallet_created account owner mpc funding) (done succeeded) s =
      resumed (Minting.wallet_created env.callback_host account owner mpc funding succeeded s)
  resume (on_wallet_created account owner mpc funding) (key derived) s =
      resumed (Minting.wallet_created env.callback_host account owner mpc funding false s)
  resume (on_signer_settled account) (done succeeded) s =
      finished (Minting.signer_settled succeeded)
  resume (on_signer_settled account) (key derived) s = finished (Minting.signer_settled false)
  resume on_creation_failed result s = finished Minting.creation_failed

  -- The calls and callbacks of a mint, with fuel for each call; `none` when it runs out. A panic ends
  -- the mint in a `PromiseError`.
  unfoldable pub follow :
      ℕ → Chained → MintWorld Nonces → Option (Option MintOutcome × MintWorld Nonces)
  follow zero chained w = none
  follow (suc fuel) (sent, callback) w =
      let (w', result) = perform sent w in
      elim (resume callback result w.manager) [
        | goes chained ↦ follow fuel chained w'
        | finished outcome ↦ some (some outcome, w')
        | panicked ↦ some (none, w')
      ]
