-- ===== src/Registry/RentalTerms.antt =====
-- What a rental costs, whom its TLA takes, and what is counted (rental.rs, business.rs, mother.rs).
use hos_tla_contracts.Base.{
  Option-cases, Text, arith, inl, inr, insert, lookup, none, ok, or_else, sat_add, some,
  text_eq_iff, true, u128_max, u32_max, ℕ, ◌<◌, ◌≡◌, ◌⊎◌,
}
use hos_tla_contracts.Host.{Host}
use hos_tla_contracts.Registry.Fees.{calculate_rent, sub_account_rent}
use hos_tla_contracts.Registry.Mother.{ensure_mother_default}
use hos_tla_contracts.Registry.Names.{sub_account_key, total_name_length}
use hos_tla_contracts.Registry.Rental.{assert_licensee, bump_if_business}
use hos_tla_contracts.Registry.RentalChecks.{price_of_rental}
use hos_tla_contracts.Registry.State.{TlaRegistry}
use hos_tla_contracts.Registry.Types.{
  FeeConfig, ParkedEntry, SubAccountEntry, TlaEntry, active, business, is_accepting_rentals,
  open_tla, tla_type_cases,
}

-- The caller of a business TLA's rental is its licensee.
abbrev pub IsLicensed : Text → TlaEntry → Type 0
IsLicensed who tla =
    (tla.tla_type ≡ open_tla) ⊎ ((tla.tla_type ≡ business) × (tla.licensee ≡ some who))

-- The rent: a flat fee under a business TLA, and by length and category under an open one.
abbrev pub IsRent : Text → Text → TlaEntry → FeeConfig → ℕ → Type 0
IsRent tla_id name tla config rent =
    ((tla.tla_type ≡ business) × (rent ≡ config.sub_fee_per_account))
    ⊎ ((tla.tla_type ≡ open_tla)
        × (rent ≡ sub_account_rent (total_name_length tla_id name) tla.premium_category config))

-- What the deposit has to cover: the rent of a parked name, and with it the creation deposit of a new one.
abbrev pub IsPrice : Text → TlaRegistry → ℕ → ℕ → Type 0
IsPrice key s rent price =
    ((parked : ParkedEntry) × (lookup key s.parked_names ≡ some parked) × (price ≡ rent))
    ⊎ ((lookup key s.parked_names ≡ none)
        × (price ≡ sat_add u128_max rent s.fee_config.account_creation_deposit))

-- A business TLA is below its cap and has one more sub-account; of an open one nothing is counted.
abbrev pub Counts : Text → TlaEntry → TlaRegistry → TlaRegistry → Type 0
Counts tla_id tla s s' =
    ((tla.tla_type ≡ open_tla) × (s'.business_sub_count ≡ s.business_sub_count))
    ⊎ (let count = or_else (lookup tla_id s.business_sub_count) 0 in
        (tla.tla_type ≡ business)
        × (count
            < or_else (lookup tla_id s.business_sub_cap_override) s.fee_config.business_max_subs)
        × (s'.business_sub_count ≡ insert tla_id (sat_add u32_max count 1) s.business_sub_count))

-- A user without a mother becomes its own, which counts as a use if it is a sub-account.
abbrev pub HasMother : Text → TlaRegistry → TlaRegistry → Type 0
HasMother user s s' =
    ((mother : Text) × (lookup user s.mothers ≡ some mother)
      × (s'.mothers ≡ s.mothers)
      × (s'.mother_use_count ≡ s.mother_use_count))
    ⊎ ((lookup user s.mothers ≡ none)
        × (s'.mothers ≡ insert user user s.mothers)
        × (((lookup user s.sub_accounts ≡ none) × (s'.mother_use_count ≡ s.mother_use_count))
            ⊎ ((sub : SubAccountEntry) × (lookup user s.sub_accounts ≡ some sub)
                × (s'.mother_use_count
                    ≡ insert user (sat_add u32_max (or_else (lookup user s.mother_use_count) 0) 1)
                        s.mother_use_count))))

pub licensee-IsLicensed :
    (who : Text) (tla : TlaEntry) → assert_licensee who tla ≡ ok tt → IsLicensed who tla
unfolding assert_licensee
licensee-IsLicensed who tla h = elim (tla_type_cases tla.tla_type) [
  | inr (is_open, other) ↦ inl is_open
  | inl (is_one, sub_tla) ↦ elim (Option-cases tla.licensee) [
    | inl missing ↦ ground arith
    | inr (licensee, held) ↦ inr (is_one, ground (arith, text_eq_iff who licensee))
  ]
]

pub calculate_rent-IsRent :
    (tla_id name : Text) (tla : TlaEntry) (config : FeeConfig)
    → IsRent tla_id name tla config (calculate_rent tla tla_id name config)
unfolding calculate_rent
calculate_rent-IsRent tla_id name tla config = elim (tla_type_cases tla.tla_type) [
  | inl (is_one, sub_tla) ↦ inl (is_one, ground arith)
  | inr (is_open, other) ↦ inr (is_open, ground arith)
]

pub price_of_rental-IsPrice :
    (tla_id name : Text) (tla : TlaEntry) (s : TlaRegistry)
    → IsPrice
        (sub_account_key tla_id name)
        s
        (calculate_rent tla tla_id name s.fee_config)
        (price_of_rental tla_id name tla s)
price_of_rental-IsPrice tla_id name tla s =
    elim (Option-cases (lookup (sub_account_key tla_id name) s.parked_names)) [
      | inl fresh ↦ inr (fresh, ground arith)
      | inr (parked, found) ↦ inl (parked, found, ground arith)
    ]

pub accepting_inv :
    (env : Host) (tla : TlaEntry)
    → is_accepting_rentals env tla ≡ true
    → (tla.status ≡ active) × (env.block_timestamp < tla.expires_at)
unfolding is_accepting_rentals
accepting_inv env tla h = (ground arith, ground arith)

pub mother-HasMother :
    (user : Text) (s : TlaRegistry)
    → HasMother user s (ensure_mother_default user s)
      × (ensure_mother_default user s ≡ record s {
        mothers = (ensure_mother_default user s).mothers;
        mother_use_count = (ensure_mother_default user s).mother_use_count;
      })
unfolding ensure_mother_default
mother-HasMother user s = elim (Option-cases (lookup user s.mothers)) [
  | inr (mother, found) ↦ (inl (mother, found, ground arith, ground arith), ground arith)
  | inl motherless ↦ elim (Option-cases (lookup user s.sub_accounts)) [
    | inl outside ↦ (inr (motherless, ground arith, inl (outside, ground arith)), ground arith)
    | inr (sub, inside) ↦
        (inr (motherless, ground arith, inr (sub, inside, ground arith)), ground arith)
  ]
]

pub bump-Counts :
    (tla_id : Text) (tla : TlaEntry) (s s' : TlaRegistry)
    → bump_if_business tla_id tla s ≡ ok s'
    → Counts tla_id tla s s' × (s' ≡ record s { business_sub_count = s'.business_sub_count })
unfolding bump_if_business
bump-Counts tla_id tla s s' h = elim (tla_type_cases tla.tla_type) [
  | inr (is_open, other) ↦ (inl (is_open, ground arith), ground arith)
  | inl (is_one, sub_tla) ↦ (inr (is_one, ground arith, ground arith), ground arith)
]
