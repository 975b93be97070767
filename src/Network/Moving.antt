-- ===== src/Network/Moving.antt =====
-- A transfer of a wallet moves it, or leaves everything.
use hos_tla_contracts.Extension.Transfers as Moves
use hos_tla_contracts.Signer.Owners
use hos_tla_contracts.Base.{
  Bool, Option, Option-cases, Result-cases, Text, ap, arith, err, false, inl, inr, insert, lookup,
  lookup-insert, none, ok, refl, some, text_eq_refl, true, ◌∙◌, ◌≡◌, ◌≢◌, ◌⊎◌,
}
use hos_tla_contracts.Common.Keys.{ed25519_base58}
use hos_tla_contracts.Extension.Errors.{ExtensionError}
use hos_tla_contracts.Extension.Types.{
  ExtensionCall, ExtensionCallback, HosExtension, after_force_swap,
}
use hos_tla_contracts.Host.{Host, PublicKey}
use hos_tla_contracts.Network.Transfers.{
  SaleEnv, SaleWorld, perform_detached, perform_swap, transfer_wallet,
}
use hos_tla_contracts.Signer.Life.{Agrees, SwapOutcome, owned_by, swap_owner_checks}
use hos_tla_contracts.Signer.Types.{ActiveSigner, SignerEntry, SignerLib}

module _ {Nonces : Type 0} (lib : SignerLib Nonces) where
  -- The keys that the signer reads from the registry's keys: the new one, and one that the entry has.
  abbrev pub ReadsKeys : SaleEnv → PublicKey → PublicKey → Text → SignerEntry Nonces → Type 0
  ReadsKeys env new_key bound_key k e =
      (raw : Text) × (bound : Text) × (ed25519_base58 env.extension_host new_key ≡ some raw)
      × (lib.parse_ed25519 raw ≡ some k)
      × (ed25519_base58 env.extension_host bound_key ≡ some bound)
      × (lib.parse_ed25519 bound ≡ some e.public_key)

  -- The transfer went through: the signer's entry has the new key, fresh windows and no freeze.
  abbrev pub Transferred :
      SaleEnv → Text → PublicKey → PublicKey → SaleWorld Nonces → SaleWorld Nonces → Type 0
  Transferred env target new_key bound_key w w' =
      (e : SignerEntry Nonces) × (k : Text) × (lookup target w.signer.signers ≡ some e)
      × ReadsKeys env new_key bound_key k e
      × (lookup target w'.signer.signers ≡ some (owned_by lib k w.signer e))

  swap_performed :
      (env : SaleEnv) (signer target raw bound : Text) (w : SaleWorld Nonces)
      → ((r : SaleWorld Nonces × Option Bool) × (perform_swap lib env
              (ExtensionCall.swap_owner signer target raw (some bound))
              w
            ≡ r)
          × ((r.0 ≡ w) × (r.1 ≢ some true)))
        ⊎ ((s' : ActiveSigner Nonces) × (perform_swap lib env
                (ExtensionCall.swap_owner signer target raw (some bound))
                w
              ≡ (record w { signer = s' }, some true))
            × SwapOutcome lib env.signer_host target raw (some bound) w.signer s' true)
  unfolding perform_swap
  swap_performed env signer target raw bound w =
      elim (Result-cases (Owners.swap_owner lib env.signer_host target raw (some bound) w.signer)) [
        | inr (e, refused) ↦ inl ((w, none), ground arith, (refl, λ same. cc))
        | inl ((s', true), swapped) ↦ inr (
          s',
          ground arith,
          swap_owner_checks lib env.signer_host target raw (some bound) w.signer s' true swapped,
        )
        | inl ((s', false), swapped) ↦
            let (e, k, found, parsed, allowed, agreed, unchanged) =
              swap_owner_checks lib env.signer_host target raw (some bound) w.signer s' false
                swapped in
            inl (
              (record w { signer = s' }, some false),
              ground arith,
              (ap (λ u. record w { signer = u }) unchanged, λ same. cc),
            )
      ]

  force_transfer_inv :
      (env : Host) (target : Text) (new_key bound_key : PublicKey) (s : HosExtension)
      (chained : ExtensionCall × ExtensionCallback)
      → Moves.force_transfer env target new_key (some bound_key) s ≡ ok chained
      → (raw : Text) × (bound : Text) × (ed25519_base58 env new_key ≡ some raw)
        × (ed25519_base58 env bound_key ≡ some bound)
        × (chained ≡ (
          ExtensionCall.swap_owner s.active_signer target raw (some bound),
          after_force_swap target,
        ))
  unfolding Moves.force_transfer Moves.base58
  force_transfer_inv env target new_key bound_key s chained h =
      elim (Option-cases (ed25519_base58 env new_key)) [
        | inl bad ↦ ground arith
        | inr (raw, printed) ↦ elim (Option-cases (ed25519_base58 env bound_key)) [
          | inl bad ↦ ground arith
          | inr (bound, bound_printed) ↦ (raw, bound, printed, bound_printed, ground arith)
        ]
      ]

  -- A transfer whose call is made and whose swap has ended.
  transfer_lem :
      (env : SaleEnv) (target : Text) (new_key bound_key : PublicKey) (w w' : SaleWorld Nonces)
      (chained : ExtensionCall × ExtensionCallback) (swapped : Option Bool)
      → Moves.force_transfer env.extension_host target new_key (some bound_key) w.extension
        ≡ ok chained
      → perform_swap lib env chained.0 w ≡ (w', swapped)
      → transfer_wallet lib env target new_key (some bound_key) w ≡ (
        perform_detached lib env (Moves.force_swapped target swapped w'.extension).1 w',
        some (Moves.force_swapped target swapped w'.extension).0,
      )
  unfolding transfer_wallet
  transfer_lem env target new_key bound_key w w' chained swapped asked performed = ground arith

  -- The call that nothing waits for leaves the signer and the registry.
  detached_keeps :
      (env : SaleEnv) (sent : Option ExtensionCall) (w : SaleWorld Nonces)
      → ((perform_detached lib env sent w).signer ≡ w.signer)
        × ((perform_detached lib env sent w).registry ≡ w.registry)
  unfolding perform_detached
  detached_keeps env none w = (refl, refl)
  detached_keeps env (some (ExtensionCall.on_wallet_transferred contract target)) w = ground arith
  detached_keeps env (some (ExtensionCall.swap_owner signer target raw expected)) w = (refl, refl)
  detached_keeps env
        (some (ExtensionCall.authority_sign_tx deposit signer target receiver actions n hash)) w =
      (refl, refl)
  detached_keeps env (some (ExtensionCall.ft_balance_of ft target)) w = (refl, refl)
  detached_keeps env (some (ExtensionCall.storage_deposit deposit ft target only)) w = (refl, refl)
  detached_keeps env (some (ExtensionCall.transfer_near to amount)) w = (refl, refl)

  -- A transfer either moves the wallet, with `true`, or leaves everything, with another result.
  abbrev pub TransferCases :
      SaleEnv
      → Text
      → PublicKey
      → PublicKey
      → SaleWorld Nonces
      → SaleWorld Nonces × Option Bool
      → Type 0
  TransferCases env target new_key bound_key w r =
      ((r.0 ≡ w) × (r.1 ≢ some true))
      ⊎ ((r.1 ≡ some true)
          × (r.0.registry ≡ w.registry)
          × Transferred env target new_key bound_key w r.0)

  not_swapped :
      (target : Text) (swapped : Option Bool) (s : HosExtension)
      → swapped ≢ some true
      → Moves.force_swapped target swapped s ≡ (false, none)
  unfolding Moves.force_swapped
  not_swapped target none s no_swap = refl
  not_swapped target (some false) s no_swap = refl
  not_swapped target (some true) s no_swap = absurd (no_swap refl)

  pub expected_read :
      (bound : Text) (e : SignerEntry Nonces)
      → Agrees lib (some bound) e true
      → lib.parse_ed25519 bound ≡ some e.public_key
  expected_read bound e (inl (absent, agreed)) = absurd (ground arith)
  expected_read bound e (inr (text, k, present, parsed, inl (same, agreed))) = ground arith
  expected_read bound e (inr (text, k, present, parsed, inr (other, agreed))) =
      absurd (ground arith)

  swapped_Transferred :
      (env : SaleEnv) (target raw bound : Text) (new_key bound_key : PublicKey)
      (w w' : SaleWorld Nonces) (s' : ActiveSigner Nonces)
      → ed25519_base58 env.extension_host new_key ≡ some raw
      → ed25519_base58 env.extension_host bound_key ≡ some bound
      → SwapOutcome lib env.signer_host target raw (some bound) w.signer s' true
      → w'.signer ≡ s'
      → Transferred env target new_key bound_key w w'
  swapped_Transferred env target raw bound new_key bound_key w w' s' printed bound_printed swap
        left =
      let (e, k, found, parsed, allowed, agreed, written) = swap in
      let next_entry = owned_by lib k w.signer e in
      let stored = lookup-insert target target next_entry w.signer.signers in
      let signers : w'.signer.signers ≡ insert target next_entry w.signer.signers =
        ap (λ u. u.signers) (left ∙ written) in
      (
        e,
        k,
        found,
        (raw, bound, printed, parsed, bound_printed, expected_read bound e agreed),
        ground (arith, stored, signers, text_eq_refl target),
      )

  quiet : (env : SaleEnv) (w : SaleWorld Nonces) → perform_detached lib env none w ≡ w
  unfolding perform_detached
  quiet env w = refl

  refused_transfer :
      (env : SaleEnv) (target : Text) (new_key bound_key : PublicKey) (w : SaleWorld Nonces)
      (e : ExtensionError)
      → Moves.force_transfer env.extension_host target new_key (some bound_key) w.extension ≡ err e
      → transfer_wallet lib env target new_key (some bound_key) w ≡ (w, none)
  unfolding transfer_wallet
  refused_transfer env target new_key bound_key w e h = ground arith

  pub transfer_cases :
      (env : SaleEnv) (target : Text) (new_key bound_key : PublicKey) (w : SaleWorld Nonces)
      → TransferCases env target new_key bound_key w
          (transfer_wallet lib env target new_key (some bound_key) w)
  unfolding Moves.force_swapped
  transfer_cases env target new_key bound_key w =
      elim (Result-cases
        (Moves.force_transfer env.extension_host target new_key (some bound_key) w.extension)) [
          | inr (e, refused) ↦
              rw (refused_transfer env target new_key bound_key w e refused)
                (inl (refl, λ same. cc))
          | inl (chained, asked) ↦
              let (raw, bound, printed, bound_printed, chain) =
                force_transfer_inv env.extension_host target new_key bound_key w.extension chained
                  asked in
              elim (swap_performed env w.extension.active_signer target raw bound w) [
                | inl (r, performed, (same, no_swap)) ↦
                    let made =
                      transfer_lem env target new_key bound_key w r.0 chained r.1 asked
                        (rw chain performed) in
                    let none_sent = not_swapped target r.1 r.0.extension no_swap in
                    rw (made, none_sent) (inl (quiet env r.0 ∙ same, λ e. cc))
                | inr (s', performed, swap) ↦
                    let w1 = record w { signer = s' } in
                    let made =
                      transfer_lem env target new_key bound_key w w1 chained (some true) asked
                        (rw chain performed) in
                    let kept =
                      detached_keeps env
                        (some (ExtensionCall.on_wallet_transferred w.extension.recovery target))
                        w1 in
                    rw made (
                      inr (
                        refl,
                        kept.1,
                        swapped_Transferred env target raw bound new_key bound_key w
                            (perform_detached lib env
                              (some
                                (ExtensionCall.on_wallet_transferred w.extension.recovery target))
                              w1)
                            s' printed bound_printed swap kept.0,
                      ))
              ]
        ]
