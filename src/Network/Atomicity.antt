-- ===== src/Network/Atomicity.antt =====
-- How the transfer of a sale ends in the registry, the extension, the signer and the recovery together.
use hos_tla_contracts.Registry.Buying
use hos_tla_contracts.Base.{
  Bool, Option, Option-cases, ap, inl, inr, lookup, none, refl, some, true, ◌∙◌, ◌≡◌, ◌≢◌, ◌⊎◌,
}
use hos_tla_contracts.Network.Moving.{Transferred, transfer_cases}
use hos_tla_contracts.Network.Transfers.{SaleEnv, SaleWorld, complete, transfer_wallet}
use hos_tla_contracts.Registry.Handover.{
  OffMarket, paid_back, sold_back, sold_for_nothing, sold_off,
}
use hos_tla_contracts.Registry.Names.{sub_account_key}
use hos_tla_contracts.Registry.Promises.{PendingBuy}
use hos_tla_contracts.Registry.Types.{SubAccountEntry}
use hos_tla_contracts.Signer.Types.{SignerLib}

module _ {Nonces : Type 0} (lib : SignerLib Nonces) where
  settled_lem :
      (env : SaleEnv) (p : PendingBuy) (w : SaleWorld Nonces)
      → complete lib env (Buying.settle_transfer w.registry.hos_extension p) w ≡ (
          let r = transfer_wallet lib env p.sub_account p.new_owner_key (some p.owner_key) w in
          record r.0 {
            registry =
                Buying.sub_account_sold r.1 p.tla_id p.name p.buyer p.price p.deposit r.0.registry;
          })
  unfolding complete Buying.settle_transfer
  settled_lem env p w = refl

  -- The transfer of the sale, for the bound key.
  abbrev transfer_of : SaleEnv → PendingBuy → SaleWorld Nonces → SaleWorld Nonces × Option Bool
  transfer_of env p w = transfer_wallet lib env p.sub_account p.new_owner_key (some p.owner_key) w

  -- The sale went through everywhere: the signer has the buyer's key and the registry the buyer.
  abbrev pub IsSold : SaleEnv → PendingBuy → SaleWorld Nonces → SaleWorld Nonces → Type 0
  IsSold env p w w' =
      (sub : SubAccountEntry) × (lookup (sub_account_key p.tla_id p.name) w.registry.sub_accounts
        ≡ some sub)
      × ((transfer_of env p w).1 ≡ some true)
      × Transferred lib env p.sub_account p.new_owner_key p.owner_key w w'
      × OffMarket (sub_account_key p.tla_id p.name) p.buyer sub w'.registry

  -- The sale went through nowhere: the buyer is owed the deposit.
  abbrev pub IsReturned : SaleEnv → PendingBuy → SaleWorld Nonces → SaleWorld Nonces → Type 0
  IsReturned env p w w' =
      ((transfer_of env p w).1 ≢ some true)
      × (w' ≡ record w {
        registry = paid_back (sub_account_key p.tla_id p.name) p.buyer p.deposit w.registry;
      })

  -- The sub-account has gone meanwhile: the signer has the buyer's key and the buyer is owed the deposit.
  abbrev pub IsGivenAway : SaleEnv → PendingBuy → SaleWorld Nonces → SaleWorld Nonces → Type 0
  IsGivenAway env p w w' =
      (lookup (sub_account_key p.tla_id p.name) w.registry.sub_accounts ≡ none)
      × ((transfer_of env p w).1 ≡ some true)
      × Transferred lib env p.sub_account p.new_owner_key p.owner_key w w'
      × (w'.registry ≡ paid_back (sub_account_key p.tla_id p.name) p.buyer p.deposit w.registry)

  -- The transfer of a sale, run to its end across the extension, the signer, the recovery and
  -- back, ends in one of three ways. Where it succeeded and the sub-account is still there, the
  -- signer's entry has the buyer's key in place of the bound one, with fresh windows, and the
  -- registry has the buyer as owner and the sub-account off the market. Where it did not succeed,
  -- nothing has changed but that the buyer is owed the deposit and the sale is unlocked. Where it
  -- succeeded but the sub-account has gone from the registry meanwhile, the sale is in the signer
  -- only: its entry has the buyer's key, and the registry changes as for a transfer that did not
  -- succeed, with the deposit owed to the buyer.
  pub sale_outcomes :
      (env : SaleEnv) (p : PendingBuy) (w : SaleWorld Nonces)
      → let w' = complete lib env (Buying.settle_transfer w.registry.hos_extension p) w in
        IsSold env p w w' ⊎ IsReturned env p w w' ⊎ IsGivenAway env p w w'
  sale_outcomes env p w =
      let done_with = settled_lem env p w in
      let item = sub_account_key p.tla_id p.name in
      elim (transfer_cases lib env p.sub_account p.new_owner_key p.owner_key w) [
        | inl (same, not_sold) ↦ inr (
            inl (
              not_sold,
              done_with
                  ∙ rw same (
                      ap (λ u. record w { registry = u })
                        (sold_back (transfer_of env p w).1 p.tla_id p.name p.buyer p.price p.deposit
                          w.registry not_sold)),
            ))
        | inr (is_sold, same_registry, moved) ↦
            elim (Option-cases (lookup item w.registry.sub_accounts)) [
              | inl gone ↦ inr (
                  inr (
                    gone,
                    is_sold,
                    rw done_with moved,
                    rw done_with (
                        rw (is_sold, same_registry)
                          (sold_for_nothing p.tla_id p.name p.buyer p.price p.deposit w.registry
                            gone)),
                  ))
              | inr (sub, found) ↦ inl (
                sub,
                found,
                is_sold,
                rw done_with moved,
                rw done_with (
                    rw (is_sold, same_registry)
                      (sold_off p.tla_id p.name p.buyer p.price p.deposit sub w.registry found)),
              )
            ]
      ]
