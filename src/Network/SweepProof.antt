-- ===== src/Network/SweepProof.antt =====
-- A sweep that the registry asks for ends, with every unit of its deposit accounted for.
use hos_tla_contracts.Extension.Sweeps as Steps
use hos_tla_contracts.Base.{
  Bool-cases, List, Option, Option-cases, Result-cases, Text, [], arith, codes, false, inl, inr,
  none, ok, refl, some, text_eq, text_eq_iff, true, ℕ, ◌<◌, ◌==◌, ◌∙◌, ◌∷◌, ◌≡◌, ◌≢◌, ◌⊎◌,
}
use hos_tla_contracts.Common.Keys.{ft_storage_deposit_yocto}
use hos_tla_contracts.Common.Tx.{TxAction}
use hos_tla_contracts.Extension.Sweeps.{gave_up, goes_on}
use hos_tla_contracts.Extension.Types.{
  ExtensionCall, ExtensionCallback, HosExtension, after_balance_for_sweep, after_storage_for_sweep,
  after_sweep_settled, min_sweep_attached, one_yocto, storage_deposit,
}
use hos_tla_contracts.Host.{Host}
use hos_tla_contracts.Network.Sweeps.{Moved, SweepEnv, follow_sweep, perform_call, resume_sweep}
use hos_tla_contracts.Registry.Names.{sub_account_key}
use hos_tla_contracts.Registry.Promises.{Promise, Remote}
use hos_tla_contracts.Registry.Reclaim.{
  reclaim_sweep_ft, resolve_reclaimable, sweep_attached_required,
}
use hos_tla_contracts.Registry.State.{TlaRegistry}

-- What makes a sweep give up: a balance that is not told or is zero, or a storage deposit that fails.
abbrev pub IsGivenUp : SweepEnv → Type 0
IsGivenUp env =
    (env.balance ≡ none)
    ⊎ (env.balance ≡ some 0)
    ⊎ ((amount : ℕ) × (env.balance ≡ some amount) × (0 < amount) × (env.registered ≡ false))

-- What makes it go on to the signer.
abbrev pub IsFunded : SweepEnv → Type 0
IsFunded env = (amount : ℕ) × (env.balance ≡ some amount) × (0 < amount) × (env.registered ≡ true)

-- The signer's answer is the value, unless it is JSON's `null`.
abbrev pub IsValueOf : Text → Option Text → Type 0
IsValueOf raw value =
    ((raw ≡ codes "null") × (value ≡ none)) ⊎ ((raw ≢ codes "null") × (value ≡ some raw))

-- How a sweep ends: given up, with the deposit back to the registry; signed for, with the deposits
-- at the token and the signer; or not signed, with the signer's deposit left to the extension.
abbrev pub SweepEnds : SweepEnv → HosExtension → Text → Moved → Option Text → Moved → Type 0
SweepEnds env s ft moved value moved' =
    (IsGivenUp env × (value ≡ none) × (moved' ≡ (s.registry, min_sweep_attached) ∷ moved))
    ⊎ ((raw : Text) × IsFunded env
        × (env.signed ≡ some raw)
        × IsValueOf raw value
        × (moved' ≡ (s.active_signer, one_yocto) ∷ (ft, ft_storage_deposit_yocto) ∷ moved))
    ⊎ (IsFunded env
        × (env.signed ≡ none)
        × (value ≡ none)
        × (moved' ≡ (ft, ft_storage_deposit_yocto) ∷ moved))

-- A chain that ends with its value.
abbrev pub SweepRuns :
    SweepEnv → HosExtension → Text → ExtensionCall → ExtensionCallback → ℕ → Moved → Type 0
SweepRuns env x ft sent callback fuel moved =
    (value : Option Text) × (moved' : Moved) × (follow_sweep env fuel sent callback x moved
      ≡ some (value, moved'))
    × SweepEnds env x ft moved value moved'

settled-IsValueOf : (raw : Text) → IsValueOf raw (Steps.sweep_settled (some raw))
unfolding Steps.sweep_settled
settled-IsValueOf raw = elim (Bool-cases (text_eq raw (codes "null"))) [
  | inl is_null ↦ inl ((text_eq_iff raw (codes "null")).0 is_null, ground arith)
  | inr other ↦ inr (λ same. ground (arith, text_eq_iff raw (codes "null")), ground arith)
]

signing_runs :
    (env : SweepEnv) (x : HosExtension) (target ft destination : Text) (actions : List TxAction)
    (amount tx_nonce : ℕ) (block_hash : Text) (moved : Moved)
    → IsFunded env
    → (value : Option Text) × (moved' : Moved) × (follow_sweep env 1
          (ExtensionCall.authority_sign_tx one_yocto x.active_signer target ft actions tx_nonce
            block_hash)
          (after_sweep_settled target ft destination amount)
          x
          ((ft, ft_storage_deposit_yocto) ∷ moved)
        ≡ some (value, moved'))
      × SweepEnds env x ft moved value moved'
unfolding follow_sweep perform_call resume_sweep Steps.sweep_settled
signing_runs env x target ft destination actions amount tx_nonce block_hash moved funded =
    elim (Option-cases env.signed) [
      | inl refused ↦ (
        none,
        (ft, ft_storage_deposit_yocto) ∷ moved,
        rw refused refl,
        inr (inr (funded, refused, refl, refl)),
      )
      | inr (raw, signed) ↦ (
        Steps.sweep_settled (some raw),
        (x.active_signer, one_yocto) ∷ (ft, ft_storage_deposit_yocto) ∷ moved,
        rw signed refl,
        inr (inl (raw, funded, signed, settled-IsValueOf raw, refl)),
      )
    ]

storage_runs :
    (env : SweepEnv) (x : HosExtension) (target ft destination : Text) (amount tx_nonce : ℕ)
    (block_hash : Text) (moved : Moved)
    → env.balance ≡ some amount
    → 0 < amount
    → SweepRuns env x ft
        (storage_deposit ft_storage_deposit_yocto ft destination true)
        (after_storage_for_sweep target ft destination amount tx_nonce block_hash)
        2
        moved
unfolding follow_sweep perform_call resume_sweep Steps.storage_for_sweep Steps.abort_and_refund
    Steps.refund_registry
storage_runs env x target ft destination amount tx_nonce block_hash moved told owned =
    elim (Bool-cases env.registered) [
      | inl stored ↦
          let (value, moved', runs, ended) =
            signing_runs env x target ft destination
              (Steps.sweep_action env.json_of destination amount ∷ []) amount tx_nonce block_hash
              moved (amount, told, owned, stored) in
          (value, moved', ground arith, ended)
      | inr not_stored ↦ (
        none,
        (x.registry, min_sweep_attached) ∷ moved,
        ground arith,
        inl (inr (inr (amount, told, owned, not_stored)), refl, refl),
      )
    ]

balance_cases :
    (x : HosExtension) (target ft destination : Text) (tx_nonce : ℕ) (block_hash : Text)
    (b : Option ℕ)
    → (((b ≡ none) ⊎ (b ≡ some 0))
        × (Steps.balance_for_sweep target ft destination tx_nonce block_hash b x
            ≡ gave_up (ExtensionCall.transfer_near x.registry min_sweep_attached)))
      ⊎ ((amount : ℕ) × (b ≡ some amount)
          × (0 < amount)
          × (Steps.balance_for_sweep target ft destination tx_nonce block_hash b x
              ≡ goes_on
                  (storage_deposit ft_storage_deposit_yocto ft destination true)
                  (after_storage_for_sweep target ft destination amount tx_nonce block_hash)))
unfolding Steps.balance_for_sweep Steps.abort_and_refund Steps.refund_registry
balance_cases x target ft destination tx_nonce block_hash none = inl (inl refl, refl)
balance_cases x target ft destination tx_nonce block_hash (some amount) =
    elim (Bool-cases (amount == 0)) [
      | inl empty ↦ inl (inr (ground arith), ground arith)
      | inr owned ↦ inr (amount, refl, ground arith, ground arith)
    ]

given_up :
    (env : SweepEnv) (x : HosExtension) (target ft destination : Text) (tx_nonce : ℕ)
    (block_hash : Text) (moved : Moved)
    → Steps.balance_for_sweep target ft destination tx_nonce block_hash env.balance x
      ≡ gave_up (ExtensionCall.transfer_near x.registry min_sweep_attached)
    → follow_sweep env 3
        (ExtensionCall.ft_balance_of ft target)
        (after_balance_for_sweep target ft destination tx_nonce block_hash)
        x
        moved
      ≡ some (none, (x.registry, min_sweep_attached) ∷ moved)
unfolding follow_sweep perform_call resume_sweep
given_up env x target ft destination tx_nonce block_hash moved e = ground arith

gone_on :
    (env : SweepEnv) (x : HosExtension) (target ft destination : Text) (tx_nonce : ℕ)
    (block_hash : Text) (moved : Moved) (sent : ExtensionCall) (callback : ExtensionCallback)
    → Steps.balance_for_sweep target ft destination tx_nonce block_hash env.balance x
      ≡ goes_on sent callback
    → follow_sweep env 3
        (ExtensionCall.ft_balance_of ft target)
        (after_balance_for_sweep target ft destination tx_nonce block_hash)
        x
        moved
      ≡ follow_sweep env 2 sent callback x moved
unfolding follow_sweep perform_call resume_sweep
gone_on env x target ft destination tx_nonce block_hash moved sent callback e = ground arith

balance_runs :
    (env : SweepEnv) (x : HosExtension) (target ft destination : Text) (tx_nonce : ℕ)
    (block_hash : Text) (moved : Moved)
    → SweepRuns env x ft
        (ExtensionCall.ft_balance_of ft target)
        (after_balance_for_sweep target ft destination tx_nonce block_hash)
        3
        moved
balance_runs env x target ft destination tx_nonce block_hash moved =
    elim (balance_cases x target ft destination tx_nonce block_hash env.balance) [
      | inl (why, empty) ↦ (
        none,
        (x.registry, min_sweep_attached) ∷ moved,
        given_up env x target ft destination tx_nonce block_hash moved empty,
        inl (elim why [ inl untold ↦ inl untold | inr zeroed ↦ inr (inl zeroed) ], refl, refl),
      )
      | inr (amount, told, positive, owned) ↦
          let (value, moved', runs, ended) =
            storage_runs env x target ft destination amount tx_nonce block_hash moved told
              positive in
          (
            value,
            moved',
            gone_on env x target ft destination tx_nonce block_hash moved
                  (storage_deposit ft_storage_deposit_yocto ft destination true)
                  (after_storage_for_sweep target ft destination amount tx_nonce block_hash) owned
                ∙ runs,
            ended,
          )
    ]

-- A token sweep that the registry asks for, performed with the deposit that its promise attaches
-- by an extension that is not paused and has the caller as its registry, is accepted and ends
-- within three calls. Where the balance is not told or is zero, or the storage deposit fails, it
-- is given up, with the whole deposit back at the registry and no value. Else the storage deposit
-- is at the token: if the signer answers, one unit is at the signer and the value is the answer,
-- or none for JSON's null; if the signer's call fails, there is no value.
pub reclaim_sweep_ft-SweepRuns :
    (caller host : Host) (env : SweepEnv) (tla_id name ft : Text) (tx_nonce : ℕ) (block_hash : Text)
    (s s' : TlaRegistry) (p : Promise) (x : HosExtension) (moved : Moved)
    → reclaim_sweep_ft caller tla_id name ft tx_nonce block_hash s ≡ ok (s', p)
    → text_eq host.predecessor x.registry ≡ true
    → host.attached_deposit ≡ sweep_attached_required
    → x.paused ≡ false
    → (target : Text) × (destination : Text) × (chained : ExtensionCall × ExtensionCallback)
      × (p.calls
          ≡ Remote.sweep_ft s.hos_extension sweep_attached_required target ft destination tx_nonce
              block_hash
            ∷ [])
      × (Steps.sweep_ft host target ft destination tx_nonce block_hash x ≡ ok chained)
      × SweepRuns env x ft chained.0 chained.1 3 moved
unfolding reclaim_sweep_ft Steps.sweep_ft
reclaim_sweep_ft-SweepRuns caller host env tla_id name ft tx_nonce block_hash s s' p x moved sent
      from_registry attached running =
    elim (Result-cases (resolve_reclaimable caller tla_id (sub_account_key tla_id name) s)) [
      | inr (e, refused) ↦ ground arith
      | inl ((target, destination), resolved) ↦ (
        target,
        destination,
        (
          ExtensionCall.ft_balance_of ft target,
          after_balance_for_sweep target ft destination tx_nonce block_hash,
        ),
        ground arith,
        ground arith,
        balance_runs env x target ft destination tx_nonce block_hash moved,
      )
    ]
