-- ===== src/Registry/RentalRules.antt =====
-- What a rental that goes through has checked, and what it writes (rental.rs).
use hos_tla_contracts.Base.{
  Text, arith, false, inl, inr, insert, lookup, none, ok, sat_add, some, text_eq_iff, u64_max, ℕ,
  ◌<◌, ◌≡◌, ◌≢◌, ◌≤◌,
}
use hos_tla_contracts.Host.{Host, PublicKey}
use hos_tla_contracts.Registry.Fees.{calculate_rent}
use hos_tla_contracts.Registry.Mother.{ensure_mother_default}
use hos_tla_contracts.Registry.Names.{sub_account_key, validate_name}
use hos_tla_contracts.Registry.Promises.{Promise}
use hos_tla_contracts.Registry.Rental.{new_rental, rent_sub_account}
use hos_tla_contracts.Registry.RentalChecks.{Rents, price_of_rental, rent_sub_account_inv}
use hos_tla_contracts.Registry.RentalTerms.{
  Counts, HasMother, IsLicensed, IsPrice, IsRent, accepting_inv, bump-Counts, calculate_rent-IsRent,
  licensee-IsLicensed, mother-HasMother, price_of_rental-IsPrice,
}
use hos_tla_contracts.Registry.State.{TlaRegistry}
use hos_tla_contracts.Registry.Types.{TlaEntry, active, one_year_ns}

-- The state that a rental leaves.
abbrev pub IsRented : Host → Text → Text → Text → TlaEntry → TlaRegistry → TlaRegistry → Type 0
IsRented env tla_id name main_wallet tla s s' =
    HasMother env.predecessor s s'
    × Counts tla_id tla s s'
    × (s' ≡ record s {
      sub_accounts =
          insert (sub_account_key tla_id name)
            (record {
              owner = env.predecessor;
              tla_id = tla_id;
              main_wallet = main_wallet;
              rented_at = env.block_timestamp;
              expires_at = sat_add u64_max env.block_timestamp one_year_ns;
              retraction_at = none;
            })
            s.sub_accounts;
      mothers = s'.mothers;
      mother_use_count = s'.mother_use_count;
      business_sub_count = s'.business_sub_count;
    })

-- A rental that was allowed.
abbrev pub AllowedRental : Host → Text → Text → Text → TlaRegistry → TlaRegistry → Type 0
AllowedRental env tla_id name main_wallet s s' =
    (tla : TlaEntry) × (rent : ℕ) × (price : ℕ) × (lookup tla_id s.tlas ≡ some tla)
    × (s.is_paused ≡ false)
    × (validate_name name ≡ ok tt)
    × (lookup (sub_account_key tla_id name) s.sub_accounts ≡ none)
    × (main_wallet ≢ sub_account_key tla_id name)
    × (tla.status ≡ active)
    × (env.block_timestamp < tla.expires_at)
    × IsLicensed env.predecessor tla
    × IsRent tla_id name tla s.fee_config rent
    × IsPrice (sub_account_key tla_id name) s rent price
    × (price ≤ env.attached_deposit)
    × IsRented env tla_id name main_wallet tla s s'

-- The three writes one after the other.
writes-IsRented :
    (env : Host) (tla_id name main_wallet : Text) (tla : TlaEntry)
    (s mothered counted s' : TlaRegistry)
    → HasMother env.predecessor s mothered
    → mothered
      ≡ record s { mothers = mothered.mothers; mother_use_count = mothered.mother_use_count }
    → Counts tla_id tla mothered counted
    → counted ≡ record mothered { business_sub_count = counted.business_sub_count }
    → s' ≡ record counted {
      sub_accounts =
          insert
            (sub_account_key tla_id name)
            (new_rental env env.predecessor tla_id main_wallet)
            counted.sub_accounts;
    }
    → IsRented env tla_id name main_wallet tla s s'
unfolding new_rental
writes-IsRented env tla_id name main_wallet tla s mothered counted s' has by_default counts by_count
      written =
    let mothers_kept : s'.mothers ≡ mothered.mothers = ground arith in
    let uses_kept : s'.mother_use_count ≡ mothered.mother_use_count = ground arith in
    (
      rw (mothers_kept, uses_kept) has,
      elim counts [
        | inl (is_open, same) ↦ inl (is_open, ground arith)
        | inr (is_one, below, more) ↦ inr (is_one, ground arith, ground arith)
      ],
      ground arith,
    )

Rents-IsRented :
    (env : Host) (tla_id name main_wallet : Text) (tla : TlaEntry) (s s' : TlaRegistry)
    → Rents env env.predecessor tla_id (sub_account_key tla_id name) main_wallet tla s s'
    → IsRented env tla_id name main_wallet tla s s'
Rents-IsRented env tla_id name main_wallet tla s s' (bumped, counted, written) =
    let user = env.predecessor in
    let mothered = ensure_mother_default user s in
    let (has, by_default) = mother-HasMother user s in
    let (counts, by_count) = bump-Counts tla_id tla mothered bumped counted in
    writes-IsRented env tla_id name main_wallet tla s mothered bumped s' has by_default counts
      by_count written

-- A rental that goes through was not paused and had an accepted name under which no sub-account
-- stood, a main wallet other than the sub-account, an active TLA before its expiry, the licensee
-- as caller where the TLA is a business one, and a deposit that covers the price: the flat fee of
-- a business TLA or the rent by length and category of an open one, with the creation deposit
-- unless the name was parked. It writes the new entry for a year, the count of a business TLA,
-- which was below its cap, one higher, the caller as its own mother where it had none, with the
-- use of it counted where the caller is a sub-account, and nothing else.
pub rent_sub_account_checks :
    (env : Host) (tla_id name : Text) (owner_key : PublicKey) (main_wallet : Text)
    (s s' : TlaRegistry) (p : Promise)
    → rent_sub_account env tla_id name owner_key main_wallet s ≡ ok (s', p)
    → AllowedRental env tla_id name main_wallet s s'
rent_sub_account_checks env tla_id name owner_key main_wallet s s' p h =
    let (tla, found, running, accepted, standing, apart, accepting, licensed, covered, rents) =
      rent_sub_account_inv env tla_id name owner_key main_wallet s s' p h in
    let (is_in_use, in_time) = accepting_inv env tla accepting in
    (
      tla,
      calculate_rent tla tla_id name s.fee_config,
      price_of_rental tla_id name tla s,
      found,
      running,
      accepted,
      standing,
      λ same. ground (arith, text_eq_iff main_wallet (sub_account_key tla_id name)),
      is_in_use,
      in_time,
      licensee-IsLicensed env.predecessor tla licensed,
      calculate_rent-IsRent tla_id name tla s.fee_config,
      price_of_rental-IsPrice tla_id name tla s,
      covered,
      Rents-IsRented env tla_id name main_wallet tla s s' rents,
    )
