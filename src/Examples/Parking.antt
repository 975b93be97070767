-- ===== src/Examples/Parking.antt =====
-- A wallet that its owner froze, and the parking of its sub-account.
use hos_tla_contracts.Registry.Reclaim
use hos_tla_contracts.Extension.Transfers
use hos_tla_contracts.Base.{
  List, [], codes, contains_key, false, lookup, none, ok, refl, some, strip_prefix, text_eq, ℕ, ◌∷◌,
  ◌≡◌,
}
use hos_tla_contracts.Common.Keys.{ed25519_base58}
use hos_tla_contracts.Examples.Fixtures.{alice, call, shop, shop_entry, shop_key, tla}
use hos_tla_contracts.Examples.Network.{sale_env, sale_world}
use hos_tla_contracts.Examples.Signer.{alice_entry, signer, toy_lib}
use hos_tla_contracts.Extension.Types.{ExtensionCall, ExtensionCallback}
use hos_tla_contracts.Host.{Host}
use hos_tla_contracts.Network.FrozenParking.{frozen_is_parked}
use hos_tla_contracts.Network.Parking.{complete_parking}
use hos_tla_contracts.Network.Transfers.{SaleWorld}
use hos_tla_contracts.Registry.Names.{sub_account_key}
use hos_tla_contracts.Signer.Types.{SignerEntry, is_unfrozen, self_frozen}

abbrev frozen_entry : SignerEntry (List ℕ)
frozen_entry = record alice_entry { public_key = 1 ∷ []; frozen = self_frozen }

abbrev frozen_world : SaleWorld (List ℕ)
frozen_world = record sale_world {
  signer = record signer { signers = (shop_key, frozen_entry) ∷ [] };
}

abbrev parking_host : Host
parking_host = call (codes "registry") 0 700

abbrev swap_asked : ExtensionCall × ExtensionCallback
swap_asked = (
  ExtensionCall.swap_owner (codes "signer") shop_key (9 ∷ []) none,
  ExtensionCallback.after_force_swap shop_key,
)

entry_found : lookup shop_key frozen_world.signer.signers ≡ some frozen_entry
unfolding lookup text_eq
entry_found = refl

entry_frozen : is_unfrozen frozen_entry.frozen ≡ false
unfolding is_unfrozen
entry_frozen = refl

not_recovery :
    text_eq sale_env.signer_host.predecessor frozen_world.signer.recovery_authority ≡ false
unfolding text_eq
not_recovery = refl

transfer_asked :
    Transfers.force_transfer sale_env.extension_host shop_key
      frozen_world.registry.parked_signer_pubkey none frozen_world.extension
    ≡ ok swap_asked
unfolding Transfers.force_transfer Transfers.base58 text_eq ed25519_base58 strip_prefix
transfer_asked = refl

shop_found : lookup (sub_account_key tla shop) frozen_world.registry.sub_accounts ≡ some shop_entry
unfolding lookup text_eq sub_account_key
shop_found = refl

signer_installed :
    contains_key (sub_account_key tla shop) frozen_world.registry.signer_pending ≡ false
unfolding lookup
signer_installed = refl

abbrev parked_world : SaleWorld (List ℕ)
parked_world =
    complete_parking toy_lib sale_env parking_host
      (Reclaim.park_wallet shop_key tla shop alice frozen_world.registry) frozen_world

frozen_is_parked_example :
    (parked_world.signer ≡ frozen_world.signer)
    × (lookup (sub_account_key tla shop) parked_world.registry.sub_accounts ≡ none)
    × (lookup (sub_account_key tla shop) parked_world.registry.parked_names
        ≡ some (record { tla_id = tla; parked_at = 700 }))
frozen_is_parked_example =
    frozen_is_parked toy_lib sale_env parking_host shop_key tla shop alice frozen_world frozen_entry
      shop_entry swap_asked entry_found entry_frozen not_recovery transfer_asked shop_found
      signer_installed
