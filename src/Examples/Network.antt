-- ===== src/Examples/Network.antt =====
-- The contracts together at concrete inputs: a rental from its mint on, and a sale.
use hos_tla_contracts.Manager.Minting
use hos_tla_contracts.Registry.Buying
use hos_tla_contracts.Registry.Reclaim
use hos_tla_contracts.Extension.Sweeps
use hos_tla_contracts.Base.{
  List, Text, [], arith, codes, contains_key, err, false, lookup, member, ok, refl, sat_add, some,
  text_eq, text_eq_refl, true, ℕ, ◌∷◌, ◌≡◌, ◌⊎◌,
}
use hos_tla_contracts.Examples.Fixtures.{
  after_first, bob, call, key_of, promise_of, registry, root, shop, shop_key, tla,
}
use hos_tla_contracts.Examples.Recovery.{recovery}
use hos_tla_contracts.Examples.Signer.{alice_entry, signer, toy_lib}
use hos_tla_contracts.Extension.Types.{ExtensionCall, ExtensionCallback}
use hos_tla_contracts.Host.{Host}
use hos_tla_contracts.Manager.Types.{Chained, ManagerCall, TlaManager, on_creation_failed}
use hos_tla_contracts.Network.Atomicity.{IsGivenAway, IsReturned, IsSold, sale_outcomes}
use hos_tla_contracts.Network.MintProof.{PrintsKeys}
use hos_tla_contracts.Network.Mints.{MintEnv, MintWorld}
use hos_tla_contracts.Network.Rentals.{Settles, rental-Settles}
use hos_tla_contracts.Network.SweepProof.{SweepRuns, reclaim_sweep_ft-SweepRuns}
use hos_tla_contracts.Network.Sweeps.{SweepEnv}
use hos_tla_contracts.Network.Transfers.{SaleEnv, SaleWorld, complete}
use hos_tla_contracts.Registry.Errors.{Reply}
use hos_tla_contracts.Registry.Names.{sub_account_key}
use hos_tla_contracts.Registry.Promises.{PendingBuy, Promise, Remote}
use hos_tla_contracts.Registry.Reclaim.{sweep_attached_required}
use hos_tla_contracts.Registry.State.{TlaRegistry}

abbrev manager : TlaManager
manager = record {
  registry = codes "registry";
  active_signer = codes "signer";
  mpc_signer = codes "mpc";
  min_balance = 2;
}

abbrev mint_env : MintEnv
mint_env = record {
  derived = some (key_of 1);
  creatable = true;
  callback_host = record (call tla 0 10) { current_account = tla };
  signer_host = call tla 0 10;
}

abbrev mint_world : MintWorld (List ℕ)
mint_world = record { manager = manager; signer = signer; moved = [] }

abbrev mint_host : Host
mint_host = record (call (codes "registry") 2 10) { current_account = tla }

abbrev mint_sent : Chained
mint_sent = elim (Minting.create_sub_account mint_host shop (key_of 1) manager) [
  | ok chained ↦ chained
  | err e ↦ (ManagerCall.transfer_near [] 0, on_creation_failed)
]

mint_sent_ok : Minting.create_sub_account mint_host shop (key_of 1) manager ≡ ok mint_sent
unfolding Minting.create_sub_account text_eq
mint_sent_ok = refl

shop_rented : contains_key (sub_account_key tla shop) registry.sub_accounts ≡ true
unfolding lookup text_eq sub_account_key
shop_rented = refl

prints_keys : (env : MintEnv) → PrintsKeys (record (call tla 0 10) { current_account = tla })
prints_keys env k good = (k.key_data, refl)

rental-Settles_example :
    Settles toy_lib mint_env
      (Minting.account_of shop tla)
      (key_of 1)
      2
      mint_world
      mint_sent
      tla
      shop
      bob
      20
      25
      registry
rental-Settles_example =
    rental-Settles toy_lib mint_host mint_env tla shop bob (key_of 1) 20 25 mint_world registry
      mint_sent (prints_keys mint_env) mint_sent_ok refl shop_rented (ground arith) (ground arith)

abbrev pub sale_env : SaleEnv
sale_env = record {
  extension_host = call (codes "registry") 0 10;
  signer_host = call (codes "market") 0 10;
  recovery_host = call (codes "market") 0 10;
}

abbrev pub sale_world : SaleWorld (List ℕ)
sale_world = record {
  registry = record registry {
    listings = (shop_key, record { price = 30; settling = true; owner_key = key_of 1 }) ∷ [];
  };
  extension = record {
    admins = root ∷ [];
    registry = codes "registry";
    active_signer = codes "signer";
    recovery = codes "recovery";
    paused = false;
    version = 1;
  };
  signer = record signer { signers = (shop_key, record alice_entry { public_key = 1 ∷ [] }) ∷ [] };
  recovery = recovery;
}

abbrev pending : PendingBuy
pending = record {
  tla_id = tla;
  name = shop;
  buyer = bob;
  new_owner_key = key_of 2;
  price = 30;
  deposit = 30;
  owner_key = key_of 1;
  sub_account = shop_key;
}

sale_outcomes_example :
    IsSold toy_lib sale_env pending sale_world (
      complete toy_lib sale_env
        (Buying.settle_transfer sale_world.registry.hos_extension pending)
        sale_world)
    ⊎ IsReturned toy_lib sale_env pending sale_world (
        complete toy_lib sale_env
          (Buying.settle_transfer sale_world.registry.hos_extension pending)
          sale_world)
    ⊎ IsGivenAway toy_lib sale_env pending sale_world (
        complete toy_lib sale_env
          (Buying.settle_transfer sale_world.registry.hos_extension pending)
          sale_world)
sale_outcomes_example = sale_outcomes toy_lib sale_env pending sale_world

abbrev usd : Text
usd = codes "usd"

abbrev sweeping_registry : TlaRegistry
sweeping_registry = record registry { ft_allowlist = usd ∷ [] }

abbrev sweep_caller : Host
sweep_caller = call bob sweep_attached_required 700

abbrev sweep_result : Reply (TlaRegistry × Promise)
sweep_result = Reclaim.reclaim_sweep_ft sweep_caller tla shop usd 5 [] sweeping_registry

abbrev swept_registry : TlaRegistry
swept_registry = after_first sweeping_registry sweep_result

sweep_accepted :
    Reclaim.reclaim_sweep_ft sweep_caller tla shop usd 5 [] sweeping_registry
    ≡ ok (swept_registry, promise_of sweep_result)
unfolding Reclaim.reclaim_sweep_ft lookup text_eq sub_account_key member sat_add
sweep_accepted = refl

abbrev sweep_env : SweepEnv
sweep_env = record {
  balance = some 9;
  registered = true;
  signed = some (codes "sig");
  json_of = λ receiver amount memo. receiver;
}

abbrev sweep_host : Host
sweep_host = call (codes "registry") sweep_attached_required 701

reclaim_sweep_ft-SweepRuns_example :
    (target : Text) × (destination : Text) × (chained : ExtensionCall × ExtensionCallback)
    × ((promise_of sweep_result).calls
        ≡ Remote.sweep_ft (codes "ext") sweep_attached_required target usd destination 5 [] ∷ [])
    × (Sweeps.sweep_ft sweep_host target usd destination 5 [] sale_world.extension ≡ ok chained)
    × SweepRuns sweep_env sale_world.extension usd chained.0 chained.1 3 []
reclaim_sweep_ft-SweepRuns_example =
    reclaim_sweep_ft-SweepRuns sweep_caller sweep_host sweep_env tla shop usd 5 [] sweeping_registry
      swept_registry (promise_of sweep_result) sale_world.extension [] sweep_accepted
      (text_eq_refl (codes "registry")) refl refl
