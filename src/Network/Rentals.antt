-- ===== src/Network/Rentals.antt =====
-- A rental from the mint to its settlement: the callback of contracts/tla-registry with the outcome that
-- the manager and the signer produce.
use hos_tla_contracts.Manager.Minting
use hos_tla_contracts.Base.{
  Result-cases, Text, arith, contains_key, err, inl, inr, ok, refl, some, true, u128_max, ℕ, ◌+◌,
  ◌≡◌, ◌≤◌,
}
use hos_tla_contracts.Common.Keys.{MintOutcome}
use hos_tla_contracts.Host.{Host, PublicKey}
use hos_tla_contracts.Manager.Types.{Chained}
use hos_tla_contracts.Network.MintProof.{MintEnded, PrintsKeys, create_sub_account-Ends}
use hos_tla_contracts.Network.Mints.{MintEnv, MintWorld, follow}
use hos_tla_contracts.Registry.Errors.{ContractError}
use hos_tla_contracts.Registry.Minting.{sub_account_created}
use hos_tla_contracts.Registry.Money.{books}
use hos_tla_contracts.Registry.Money.Settlement.{mint_cost, sub_account_created_conserves}
use hos_tla_contracts.Registry.Names.{sub_account_key}
use hos_tla_contracts.Registry.State.{TlaRegistry}
use hos_tla_contracts.Signer.Types.{SignerLib}

-- What of the creation deposit has gone to the new account.
abbrev pub spent_on_account : MintOutcome → ℕ → ℕ
spent_on_account MintOutcome.active funding = funding
spent_on_account MintOutcome.signer_pending funding = funding
spent_on_account MintOutcome.creation_failed funding = 0

created_answers :
    (outcome : MintOutcome) (tla_id name payer : Text) (owner_key : PublicKey) (rent attached : ℕ)
    (s : TlaRegistry)
    → contains_key (sub_account_key tla_id name) s.sub_accounts ≡ true
    → (s' : TlaRegistry) × (sub_account_created
          (some outcome)
          tla_id
          name
          payer
          owner_key
          rent
          attached
          s
        ≡ ok s')
unfolding sub_account_created
created_answers outcome tla_id name payer owner_key rent attached s rented =
    elim (Result-cases
      (sub_account_created (some outcome) tla_id name payer owner_key rent attached s)) [
        | inl answered ↦ answered
        | inr (e, refused) ↦ absurd (never outcome e refused)
      ]
  where
    never :
        (outcome : MintOutcome) (e : ContractError)
        → sub_account_created (some outcome) tla_id name payer owner_key rent attached s ≡ err e
        → ⊥
    never MintOutcome.active e refused = ground arith
    never MintOutcome.signer_pending e refused = ground arith
    never MintOutcome.creation_failed e refused = ground arith

module _ {Nonces : Type 0} (lib : SignerLib Nonces) where
  -- The mint ends, the registry's callback answers, and every unit of the deposit is accounted for.
  abbrev pub Settles :
      MintEnv
      → Text
      → PublicKey
      → ℕ
      → MintWorld Nonces
      → Chained
      → (tla_id name payer : Text) (rent attached : ℕ) → TlaRegistry
      → Type 0
  Settles env account owner funding w chained tla_id name payer rent attached s =
      (outcome : MintOutcome) × (w' : MintWorld Nonces) × (s' : TlaRegistry) × (follow lib env 3
          chained w
        ≡ some (some outcome, w'))
      × MintEnded lib env account owner funding w outcome w'
      × (sub_account_created (some outcome) tla_id name payer owner rent attached s ≡ ok s')
      × (books s' + spent_on_account outcome funding ≡ books s + attached)

  -- A mint that the manager accepts ends within three calls, whatever the derived key, the
  -- creation and the signer do: the account gets the creation deposit, with a new signer entry
  -- exactly when the outcome is active, or the registry gets it back. The registry's callback
  -- with that outcome then answers, and revenue plus refunds owed, with what the new account got,
  -- grow by exactly the attached deposit, where it covers rent and creation deposit, the
  -- configured creation deposit is the one sent, the entry still stands and the sums fit a u128.
  pub rental-Settles :
      (host : Host) (env : MintEnv) (tla_id name payer : Text) (owner : PublicKey)
      (rent attached : ℕ) (w : MintWorld Nonces) (s : TlaRegistry) (chained : Chained)
      → PrintsKeys env.callback_host
      → Minting.create_sub_account host name owner w.manager ≡ ok chained
      → host.attached_deposit ≡ s.fee_config.account_creation_deposit
      → contains_key (sub_account_key tla_id name) s.sub_accounts ≡ true
      → rent + s.fee_config.account_creation_deposit ≤ attached
      → books s + attached ≤ u128_max
      → Settles env
          (Minting.account_of name host.current_account)
          owner
          host.attached_deposit
          w
          chained
          tla_id
          name
          payer
          rent
          attached
          s
  rental-Settles host env tla_id name payer owner rent attached w s chained prints h funded rented
        covered fits =
      let (outcome, w', runs, ended) =
        create_sub_account-Ends lib host env name owner w chained prints h in
      let (s', answered) = created_answers outcome tla_id name payer owner rent attached s rented in
      let balanced =
        sub_account_created_conserves (some outcome) tla_id name payer owner rent attached s s'
          covered fits answered in
      (outcome, w', s', runs, ended, answered, rw (spent_lem outcome) balanced)
    where
      spent_lem :
          (o : MintOutcome) → spent_on_account o host.attached_deposit ≡ mint_cost (some o) s
      spent_lem MintOutcome.active = funded
      spent_lem MintOutcome.signer_pending = funded
      spent_lem MintOutcome.creation_failed = refl
