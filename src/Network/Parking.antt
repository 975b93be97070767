-- ===== src/Network/Parking.antt =====
-- The parking of a reclaimed wallet across contracts/tla-registry, contracts/hos-extension and
-- contracts/active-signer. The registry's callback asks only whether the promise succeeded.
use hos_tla_contracts.Registry.Reclaim
use hos_tla_contracts.Base.{List, Option, [], is_some, some, ◌∷◌}
use hos_tla_contracts.Host.{Host}
use hos_tla_contracts.Network.Transfers.{SaleEnv, SaleWorld, transfer_wallet}
use hos_tla_contracts.Registry.Promises.{Callback, Promise, Remote, on_reclaim_finalized}
use hos_tla_contracts.Signer.Types.{SignerLib}

module _ {Nonces : Type 0} (lib : SignerLib Nonces) (env : SaleEnv) where
  -- The registry's promise of a parking: the call, and the callback in the context of the host.
  unfoldable pub complete_parking : Host → Promise → SaleWorld Nonces → SaleWorld Nonces
  complete_parking host p w = parking_parts p.calls p.callback w
    where
      parking_parts : List Remote → Option Callback → SaleWorld Nonces → SaleWorld Nonces
      parking_parts (Remote.force_transfer extension target new_key expected ∷ [])
            (some (on_reclaim_finalized tla_id name destination)) w =
          let (w', result) = transfer_wallet lib env target new_key expected w in
          record w' {
            registry = Reclaim.reclaim_finalized host (is_some result) tla_id name w'.registry;
          }
      parking_parts _ _ w = w
