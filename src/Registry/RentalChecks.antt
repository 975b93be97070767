-- ===== src/Registry/RentalChecks.antt =====
-- The guards and the writes of a rental that goes through, as rental.rs puts them.
use hos_tla_contracts.Base.{
  Option-cases, Result-cases, Text, arith, contains_key, false, if◌then◌else◌, inl, inr, insert,
  lookup, member, none, ok, sat_add, some, text_eq, true, u128_max, ℕ, ◌≡◌, ◌≤◌,
}
use hos_tla_contracts.Host.{Host, PublicKey}
use hos_tla_contracts.Registry.Fees.{calculate_rent}
use hos_tla_contracts.Registry.Mother.{ensure_mother_default}
use hos_tla_contracts.Registry.Names.{sub_account_key, validate_name}
use hos_tla_contracts.Registry.Promises.{Promise}
use hos_tla_contracts.Registry.Rental.{
  assert_licensee, bump_if_business, new_rental, rent_sub_account, rent_sub_account_paid,
}
use hos_tla_contracts.Registry.State.{TlaRegistry}
use hos_tla_contracts.Registry.Types.{TlaEntry, is_accepting_rentals}

-- What a rental leaves, up to the promise: the mother set by default, the count bumped for a business
-- TLA, and the new entry.
abbrev pub Rents : Host → Text → Text → Text → Text → TlaEntry → TlaRegistry → TlaRegistry → Type 0
Rents env owner tla_id key main_wallet tla s s' =
    (bumped : TlaRegistry) × (bump_if_business tla_id tla (ensure_mother_default owner s)
      ≡ ok bumped)
    × (s' ≡ record bumped {
      sub_accounts = insert key (new_rental env owner tla_id main_wallet) bumped.sub_accounts;
    })

-- What was to be paid.
abbrev pub price_of_rental : Text → Text → TlaEntry → TlaRegistry → ℕ
price_of_rental tla_id name tla s =
    let rent = calculate_rent tla tla_id name s.fee_config in
    if contains_key (sub_account_key tla_id name) s.parked_names
    then rent
    else sat_add u128_max rent s.fee_config.account_creation_deposit

-- What the guards let through, and what is then written.
abbrev pub PassedRental : Host → Text → Text → Text → TlaRegistry → TlaRegistry → Type 0
PassedRental env tla_id name main_wallet s s' =
    (tla : TlaEntry) × (lookup tla_id s.tlas ≡ some tla)
    × (s.is_paused ≡ false)
    × (validate_name name ≡ ok tt)
    × (lookup (sub_account_key tla_id name) s.sub_accounts ≡ none)
    × (text_eq main_wallet (sub_account_key tla_id name) ≡ false)
    × (is_accepting_rentals env tla ≡ true)
    × (assert_licensee env.predecessor tla ≡ ok tt)
    × (price_of_rental tla_id name tla s ≤ env.attached_deposit)
    × Rents env env.predecessor tla_id (sub_account_key tla_id name) main_wallet tla s s'

pub rent_sub_account_inv :
    (env : Host) (tla_id name : Text) (owner_key : PublicKey) (main_wallet : Text)
    (s s' : TlaRegistry) (p : Promise)
    → rent_sub_account env tla_id name owner_key main_wallet s ≡ ok (s', p)
    → PassedRental env tla_id name main_wallet s s'
unfolding rent_sub_account
rent_sub_account_inv env tla_id name owner_key main_wallet s s' p e =
    elim (Option-cases (lookup tla_id s.tlas)) [
      | inl unknown ↦ ground arith
      | inr (tla, found) ↦
          elim (Result-cases
            (bump_if_business tla_id tla (ensure_mother_default env.predecessor s))) [
              | inr (e', full) ↦ ground arith
              | inl (bumped, counted) ↦ (
                tla,
                found,
                ground arith,
                ground arith,
                ground arith,
                ground arith,
                ground arith,
                ground arith,
                ground arith,
                (bumped, counted, ground arith),
              )
            ]
    ]

pub rent_sub_account_paid_inv :
    (env : Host) (tla_id name : Text) (owner_key : PublicKey) (main_wallet : Text)
    (s s' : TlaRegistry) (p : Promise)
    → rent_sub_account_paid env tla_id name owner_key main_wallet s ≡ ok (s', p)
    → (tla : TlaEntry) × (lookup tla_id s.tlas ≡ some tla)
      × (member env.predecessor s.payment_authorities ≡ true)
      × (validate_name name ≡ ok tt)
      × (lookup (sub_account_key tla_id name) s.sub_accounts ≡ none)
      × (lookup (sub_account_key tla_id name) s.parked_names ≡ none)
      × (is_accepting_rentals env tla ≡ true)
      × (assert_licensee main_wallet tla ≡ ok tt)
      × (s.fee_config.account_creation_deposit ≤ env.attached_deposit)
      × Rents env env.predecessor tla_id (sub_account_key tla_id name) main_wallet tla s s'
unfolding rent_sub_account_paid
rent_sub_account_paid_inv env tla_id name owner_key main_wallet s s' p e =
    elim (Option-cases (lookup tla_id s.tlas)) [
      | inl unknown ↦ ground arith
      | inr (tla, found) ↦
          elim (Result-cases
            (bump_if_business tla_id tla (ensure_mother_default env.predecessor s))) [
              | inr (e', full) ↦ ground arith
              | inl (bumped, counted) ↦ (
                tla,
                found,
                ground arith,
                ground arith,
                ground arith,
                ground arith,
                ground arith,
                ground arith,
                ground arith,
                (bumped, counted, ground arith),
              )
            ]
    ]
