-- ===== src/Network/Transfers.antt =====
-- A sale's transfer across four contracts: contracts/tla-registry asks contracts/hos-extension to move the
-- wallet, that swaps the owner in contracts/active-signer and tells contracts/mpc-recovery, and the
-- registry's callback settles the sale.
use hos_tla_contracts.Extension.Transfers as Moves
use hos_tla_contracts.Signer.Owners
use hos_tla_contracts.Recovery.Opening
use hos_tla_contracts.Registry.Buying
use hos_tla_contracts.Base.{Bool, List, Option, Text, [], err, none, ok, some, ◌∷◌}
use hos_tla_contracts.Extension.Types.{ExtensionCall, HosExtension}
use hos_tla_contracts.Host.{Host, PublicKey}
use hos_tla_contracts.Recovery.Types.{MpcRecovery}
use hos_tla_contracts.Registry.Promises.{Callback, Promise, Remote, on_sub_account_sold}
use hos_tla_contracts.Registry.State.{TlaRegistry}
use hos_tla_contracts.Signer.Types.{ActiveSigner, SignerLib}

-- The contexts that the contracts are called in.
pub record SaleEnv : Type 0 where
  pub extension_host : Host
  pub signer_host : Host
  pub recovery_host : Host

pub record SaleWorld (Nonces : Type 0) : Type 0 where
  pub registry : TlaRegistry
  pub extension : HosExtension
  pub signer : ActiveSigner Nonces
  pub recovery : MpcRecovery

module _ {Nonces : Type 0} (lib : SignerLib Nonces) (env : SaleEnv) where
  -- The swap of the owner, with the result that its callback finds: `none` if the call fails. A
  -- transfer makes no other call that anything waits for.
  unfoldable pub perform_swap : ExtensionCall → SaleWorld Nonces → SaleWorld Nonces × Option Bool
  perform_swap (ExtensionCall.swap_owner active_signer target raw_key expected) w =
      elim (Owners.swap_owner lib env.signer_host target raw_key expected w.signer) [
        | ok (signer, swapped) ↦ (record w { signer = signer }, some swapped)
        | err e ↦ (w, none)
      ]
  perform_swap _ w = (w, none)

  -- The call that nothing waits for.
  unfoldable pub perform_detached : Option ExtensionCall → SaleWorld Nonces → SaleWorld Nonces
  perform_detached (some (ExtensionCall.on_wallet_transferred contract target)) w =
      elim (Opening.on_wallet_transferred env.recovery_host target w.recovery) [
        | ok recovery ↦ record w { recovery = recovery }
        | err e ↦ w
      ]
  perform_detached _ w = w

  -- `force_transfer` to its end: the result that the registry's callback finds.
  unfoldable pub transfer_wallet :
      Text → PublicKey → Option PublicKey → SaleWorld Nonces → SaleWorld Nonces × Option Bool
  transfer_wallet target new_key expected w =
      elim (Moves.force_transfer env.extension_host target new_key expected w.extension) [
        | err e ↦ (w, none)
        | ok chained ↦
            let (w', swapped) = perform_swap chained.0 w in
            let (result, detached) = Moves.force_swapped target swapped w'.extension in
            (perform_detached detached w', some result)
      ]

  -- The registry's promise of a transfer: the call, and the callback with its result.
  unfoldable pub complete : Promise → SaleWorld Nonces → SaleWorld Nonces
  complete p w = complete_parts p.calls p.callback w
    where
      complete_parts : List Remote → Option Callback → SaleWorld Nonces → SaleWorld Nonces
      complete_parts (Remote.force_transfer extension target new_key expected ∷ [])
            (some (on_sub_account_sold tla_id name buyer price deposit)) w =
          let (w', result) = transfer_wallet target new_key expected w in
          record w' {
            registry = Buying.sub_account_sold result tla_id name buyer price deposit w'.registry;
          }
      complete_parts _ _ w = w
