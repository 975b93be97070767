-- ===== src/Network/FrozenParking.antt =====
-- The parking of a wallet that is frozen.
use hos_tla_contracts.Extension.Transfers as Moves
use hos_tla_contracts.Signer.Owners
use hos_tla_contracts.Registry.Reclaim
use hos_tla_contracts.Registry.Business
use hos_tla_contracts.Base.{
  Bool, Option, Option-cases, Result-cases, Text, [], ap, arith, contains_key, err, false, inl, inr,
  is_ok, is_some, lookup, lookup-insert, lookup-remove, none, ok, refl, some, text_eq, text_eq_iff,
  text_eq_refl, true, ◌∙◌, ◌∷◌, ◌≡◌,
}
use hos_tla_contracts.Common.Keys.{ed25519_base58}
use hos_tla_contracts.Extension.Types.{ExtensionCall, ExtensionCallback}
use hos_tla_contracts.Host.{Host, PublicKey}
use hos_tla_contracts.Network.Parking.{complete_parking}
use hos_tla_contracts.Network.Transfers.{
  SaleEnv, SaleWorld, perform_detached, perform_swap, transfer_wallet,
}
use hos_tla_contracts.Registry.Names.{sub_account_key}
use hos_tla_contracts.Registry.Promises.{Remote, on_reclaim_finalized, then_call}
use hos_tla_contracts.Registry.State.{TlaRegistry}
use hos_tla_contracts.Registry.Types.{ParkedEntry, SubAccountEntry}
use hos_tla_contracts.Signer.Errors.{Answer}
use hos_tla_contracts.Signer.Life.{swap_owner_checks}
use hos_tla_contracts.Signer.Types.{ActiveSigner, SignerEntry, SignerLib, is_unfrozen}

freed :
    (host : Host) (tla_id name : Text) (sub : SubAccountEntry) (s : TlaRegistry)
    → lookup (sub_account_key tla_id name) s.sub_accounts ≡ some sub
    → (lookup
          (sub_account_key tla_id name)
          (Reclaim.reclaim_finalized host true tla_id name s).sub_accounts
        ≡ none)
      × (lookup
            (sub_account_key tla_id name)
            (Reclaim.reclaim_finalized host true tla_id name s).parked_names
          ≡ some (record { tla_id = tla_id; parked_at = host.block_timestamp }))
unfolding Reclaim.reclaim_finalized Reclaim.forget_rental Reclaim.park_name Reclaim.drop_self_mother
    Business.business_count_decrement_if_business
freed host tla_id name sub s found =
    let item = sub_account_key tla_id name in
    let parked : ParkedEntry = record { tla_id = tla_id; parked_at = host.block_timestamp } in
    (
      ground (arith, lookup-remove item item s.sub_accounts, text_eq_refl item),
      ground (arith, lookup-insert item item parked s.parked_names, text_eq_refl item),
    )

module _ {Nonces : Type 0} (lib : SignerLib Nonces) where
  frozen_refuses :
      (env : Host) (target raw : Text) (expected : Option Text) (s : ActiveSigner Nonces)
      (e : SignerEntry Nonces) (r : Answer (ActiveSigner Nonces × Bool))
      → Owners.swap_owner lib env target raw expected s ≡ r
      → lookup target s.signers ≡ some e
      → is_unfrozen e.frozen ≡ false
      → text_eq env.predecessor s.recovery_authority ≡ false
      → is_ok r ≡ false
  frozen_refuses env target raw expected s e (err refused) h found frozen other = refl
  frozen_refuses env target raw expected s e (ok (s', swapped)) h found frozen other =
      let (e', k, found', parsed, allowed, agreed, written) =
        swap_owner_checks lib env target raw expected s s' swapped h in
      elim allowed [
        | inl (market, unfrozen_now) ↦ ground arith
        | inr (recovers, frozen_now) ↦
            ground (arith, text_eq_iff env.predecessor s.recovery_authority)
      ]

  transfer_refused :
      (env : SaleEnv) (target : Text) (new_key : PublicKey) (w : SaleWorld Nonces)
      (e : SignerEntry Nonces) (chained : ExtensionCall × ExtensionCallback)
      → Moves.force_transfer env.extension_host target new_key none w.extension ≡ ok chained
      → lookup target w.signer.signers ≡ some e
      → is_unfrozen e.frozen ≡ false
      → text_eq env.signer_host.predecessor w.signer.recovery_authority ≡ false
      → transfer_wallet lib env target new_key none w ≡ (w, some false)
  unfolding transfer_wallet perform_swap perform_detached Moves.force_swapped Moves.force_transfer
      Moves.base58
  transfer_refused env target new_key w e chained asked found frozen other =
      elim (Option-cases (ed25519_base58 env.extension_host new_key)) [
        | inl bad ↦ ground arith
        | inr (raw, printed) ↦
            elim (Result-cases (Owners.swap_owner lib env.signer_host target raw none w.signer)) [
              | inr (x, refused) ↦ ground arith
              | inl (p, went) ↦
                  let never =
                    frozen_refuses env.signer_host target raw none w.signer e (ok p) went found
                      frozen other in
                  cc
            ]
      ]

  asks_transfer :
      (target tla_id name destination : Text) (s : TlaRegistry)
      → contains_key (sub_account_key tla_id name) s.signer_pending ≡ false
      → Reclaim.park_wallet target tla_id name destination s
        ≡ then_call
            (Remote.force_transfer s.hos_extension target s.parked_signer_pubkey none ∷ [])
            (on_reclaim_finalized tla_id name destination)
  unfolding Reclaim.park_wallet
  asks_transfer target tla_id name destination s installed = rw installed refl

  parked_world :
      (env : SaleEnv) (host : Host) (extension target tla_id name destination : Text)
      (new_key : PublicKey) (w : SaleWorld Nonces)
      → complete_parking lib env host
          (then_call
            (Remote.force_transfer extension target new_key none ∷ [])
            (on_reclaim_finalized tla_id name destination))
          w
        ≡ (let r = transfer_wallet lib env target new_key none w in
            record r.0 {
              registry = Reclaim.reclaim_finalized host (is_some r.1) tla_id name r.0.registry;
            })
  unfolding complete_parking
  parked_world env host extension target tla_id name destination new_key w = refl

  -- Parking a rented sub-account whose wallet is frozen, where the signer was installed, the
  -- extension accepts the registry's call and is not the signer's recovery authority, leaves the
  -- signer as it is, with the key and the freeze of the old owner, and yet ends the rental and
  -- puts the name up for rent again.
  pub frozen_is_parked :
      (env : SaleEnv) (host : Host) (target tla_id name destination : Text) (w : SaleWorld Nonces)
      (e : SignerEntry Nonces) (sub : SubAccountEntry) (chained : ExtensionCall × ExtensionCallback)
      → lookup target w.signer.signers ≡ some e
      → is_unfrozen e.frozen ≡ false
      → text_eq env.signer_host.predecessor w.signer.recovery_authority ≡ false
      → Moves.force_transfer env.extension_host target w.registry.parked_signer_pubkey none
          w.extension
        ≡ ok chained
      → lookup (sub_account_key tla_id name) w.registry.sub_accounts ≡ some sub
      → contains_key (sub_account_key tla_id name) w.registry.signer_pending ≡ false
      → let w' =
          complete_parking lib env host
            (Reclaim.park_wallet target tla_id name destination w.registry)
            w in
        (w'.signer ≡ w.signer)
        × (lookup (sub_account_key tla_id name) w'.registry.sub_accounts ≡ none)
        × (lookup (sub_account_key tla_id name) w'.registry.parked_names
            ≡ some (record { tla_id = tla_id; parked_at = host.block_timestamp }))
  frozen_is_parked env host target tla_id name destination w e sub chained found frozen other asked
        rented installed =
      let stays =
        transfer_refused env target w.registry.parked_signer_pubkey w e chained asked found frozen
          other in
      let after_parking : SaleWorld Nonces × Option Bool → SaleWorld Nonces = λ r. record r.0 {
        registry = Reclaim.reclaim_finalized host (is_some r.1) tla_id name r.0.registry;
      } in
      let left =
        ap (λ p. complete_parking lib env host p w)
          (asks_transfer target tla_id name destination w.registry installed)
        ∙ parked_world env host w.registry.hos_extension target tla_id name destination
            w.registry.parked_signer_pubkey w
        ∙ ap after_parking stays in
      let (gone, parked) = freed host tla_id name sub w.registry rented in
      rw left (refl, gone, parked)
