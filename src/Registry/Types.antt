-- ===== src/Registry/Types.antt =====
-- contracts/tla-registry/src/types.rs: the records of the registry and their lifecycle.
use hos_tla_contracts.Base.{
  Bool, Option, Text, false, if◌then◌else◌, inl, inr, leb, ltb, none, refl, sat_add, some, true,
  u64_max, ℕ, ◌&&◌, ◌*◌, ◌≡◌, ◌⊎◌,
}
use hos_tla_contracts.Host.{Host, PublicKey}

abbrev pub one_near : ℕ
one_near = 1000000000000000000000000

abbrev pub one_year_ns : ℕ
one_year_ns = 365 * 24 * 60 * 60 * 1000000000

pub data TlaType : Type 0 where
  business open_tla : TlaType

pub data TlaStatus : Type 0 where
  registered active suspended : TlaStatus

pub data PremiumCategory : Type 0 where
  legendary premium standard community : PremiumCategory

-- Numerator and denominator.
unfoldable pub multiplier : PremiumCategory → ℕ × ℕ
multiplier legendary = (5, 1)
multiplier premium = (3, 1)
multiplier standard = (3, 2)
multiplier community = (0, 1)

pub record TlaEntry : Type 0 where
  pub tla_type : TlaType
  pub status : TlaStatus
  pub licensee : Option Text
  pub premium_category : PremiumCategory
  pub activated_at : ℕ
  pub expires_at : ℕ

pub record SubAccountEntry : Type 0 where
  pub owner : Text
  pub tla_id : Text
  pub main_wallet : Text
  pub rented_at : ℕ
  pub expires_at : ℕ
  pub retraction_at : Option ℕ

pub record Listing : Type 0 where
  pub price : ℕ
  pub settling : Bool
  pub owner_key : PublicKey

pub record ParkedEntry : Type 0 where
  pub tla_id : Text
  pub parked_at : ℕ

pub record AcceptedOffer : Type 0 where
  pub buyer : Text
  pub price : ℕ
  pub settling : Bool
  pub owner_key : PublicKey

pub record FeeConfig : Type 0 where
  pub tla_allocation_fee : ℕ
  pub rent_tier_5 : ℕ
  pub rent_tier_8 : ℕ
  pub rent_tier_10 : ℕ
  pub rent_tier_12plus : ℕ
  pub sub_fee_per_account : ℕ
  pub account_creation_deposit : ℕ
  pub business_max_subs : ℕ
  pub retraction_notice_ns : ℕ
  pub resale_commission_bps : ℕ

pub data LifecycleStatus : Type 0 where
  registered active grace reclaimable suspended : LifecycleStatus

unfoldable pub is_business : TlaType → Bool
is_business business = true
is_business open_tla = false

pub tla_type_cases :
    (t : TlaType)
    → ((t ≡ business) × (is_business t ≡ true)) ⊎ ((t ≡ open_tla) × (is_business t ≡ false))
unfolding is_business
tla_type_cases business = inl (refl, refl)
tla_type_cases open_tla = inr (refl, refl)

-- `status == TlaStatus::Registered`, and so on
unfoldable pub is_registered : TlaStatus → Bool
is_registered TlaStatus.registered = true
is_registered TlaStatus.active = false
is_registered TlaStatus.suspended = false

unfoldable pub is_active : TlaStatus → Bool
is_active TlaStatus.registered = false
is_active TlaStatus.active = true
is_active TlaStatus.suspended = false

unfoldable pub is_suspended : TlaStatus → Bool
is_suspended TlaStatus.registered = false
is_suspended TlaStatus.active = false
is_suspended TlaStatus.suspended = true

-- `matches!(lifecycle, LifecycleStatus::Reclaimable)` and `LifecycleStatus::Active`
unfoldable pub is_reclaimable : LifecycleStatus → Bool
is_reclaimable LifecycleStatus.reclaimable = true
is_reclaimable _ = false

unfoldable pub is_live : LifecycleStatus → Bool
is_live LifecycleStatus.active = true
is_live _ = false

unfoldable pub time_lifecycle : Host → ℕ → ℕ → LifecycleStatus
time_lifecycle env expires_at grace_period_ns =
    let now = env.block_timestamp in
    let grace_end = sat_add u64_max expires_at grace_period_ns in
    if ltb now expires_at
    then LifecycleStatus.active
    else if ltb now grace_end
    then LifecycleStatus.grace
    else LifecycleStatus.reclaimable

abbrev status_lifecycle : TlaStatus → LifecycleStatus → LifecycleStatus
status_lifecycle TlaStatus.registered timed = LifecycleStatus.registered
status_lifecycle TlaStatus.suspended timed = LifecycleStatus.suspended
status_lifecycle TlaStatus.active timed = timed

unfoldable pub tla_lifecycle : Host → TlaEntry → ℕ → LifecycleStatus
unfolding time_lifecycle
tla_lifecycle env tla grace_period_ns =
    status_lifecycle tla.status (time_lifecycle env tla.expires_at grace_period_ns)

unfoldable pub is_accepting_rentals : Host → TlaEntry → Bool
unfolding is_active
is_accepting_rentals env tla = is_active tla.status && ltb env.block_timestamp tla.expires_at

unfoldable pub sub_lifecycle : Host → SubAccountEntry → ℕ → LifecycleStatus
unfolding time_lifecycle
sub_lifecycle env sub grace_period_ns = time_lifecycle env sub.expires_at grace_period_ns

-- mother.rs: a sub-account is reclaimable with its TLA, or once its retraction notice has run out.
unfoldable pub effective_sub_lifecycle : Host → SubAccountEntry → TlaEntry → ℕ → ℕ → LifecycleStatus
unfolding tla_lifecycle is_reclaimable sub_lifecycle
effective_sub_lifecycle env sub tla retraction_notice_ns grace_period_ns =
    if is_reclaimable (tla_lifecycle env tla grace_period_ns)
    then LifecycleStatus.reclaimable
    else elim sub.retraction_at [
      | none ↦ sub_lifecycle env sub grace_period_ns
      | some retraction_at ↦
          if leb (sat_add u64_max retraction_at retraction_notice_ns) env.block_timestamp
          then LifecycleStatus.reclaimable
          else sub_lifecycle env sub grace_period_ns
    ]
