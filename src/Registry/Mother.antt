-- ===== src/Registry/Mother.antt =====
-- contracts/tla-registry/src/mother.rs: each user's mother account, and how often it is one.
use hos_tla_contracts.Base.{
  Text, contains_key, ensure, if◌then◌else◌, insert, lookup, none, ok, ok_or, or_else, reject,
  remove, sat_add, some, text_eq, u32_max, ℕ, ◌-◌, ◌==◌, ◌>>=◌, ◌>>◌,
}
use hos_tla_contracts.Host.{Host}
use hos_tla_contracts.Registry.Errors.{
  Reply, mother_is_reclaimable, mother_not_set, only_owner, sub_account_not_found, tla_not_found,
}
use hos_tla_contracts.Registry.State.{
  TlaRegistry, assert_admin, assert_not_paused, assert_one_yocto,
}
use hos_tla_contracts.Registry.Types.{effective_sub_lifecycle, is_reclaimable}

unfoldable pub mother_uses : Text → TlaRegistry → ℕ
mother_uses account s = or_else (lookup account s.mother_use_count) 0

unfoldable pub increment_mother_use : Text → TlaRegistry → TlaRegistry
unfolding mother_uses
increment_mother_use account s =
    let next = sat_add u32_max (mother_uses account s) 1 in
    record s { mother_use_count = insert account next s.mother_use_count }

unfoldable pub decrement_mother_use : Text → TlaRegistry → TlaRegistry
unfolding mother_uses
decrement_mother_use account s =
    let next = mother_uses account s - 1 in
    if next == 0
    then record s { mother_use_count = remove account s.mother_use_count }
    else record s { mother_use_count = insert account next s.mother_use_count }

unfoldable pub ensure_mother_default : Text → TlaRegistry → TlaRegistry
unfolding increment_mother_use
ensure_mother_default user s =
    if contains_key user s.mothers
    then s
    else let s' = record s { mothers = insert user user s.mothers } in
      if contains_key user s.sub_accounts then increment_mother_use user s' else s'

-- The checks that a managed mother is the user's own and not reclaimable.
unfoldable pub assert_mother_allowed : Host → Text → Text → TlaRegistry → Reply (Unit {0})
unfolding effective_sub_lifecycle
assert_mother_allowed env user new_mother s = elim (lookup new_mother s.sub_accounts) [
  | none ↦ ok tt
  | some sub ↦ do
    ensure (text_eq sub.owner user) only_owner
    tla ← ok_or (lookup sub.tla_id s.tlas) tla_not_found
    reject
        (is_reclaimable
          (effective_sub_lifecycle env sub tla s.fee_config.retraction_notice_ns s.grace_period_ns))
        mother_is_reclaimable
]

unfoldable pub release_mother : Text → TlaRegistry → TlaRegistry
unfolding decrement_mother_use
release_mother old_mother s =
    if contains_key old_mother s.sub_accounts then decrement_mother_use old_mother s else s

unfoldable pub install_mother : Text → Text → TlaRegistry → TlaRegistry
unfolding increment_mother_use
install_mother user new_mother s =
    let s' = record s { mothers = insert user new_mother s.mothers } in
    if contains_key new_mother s.sub_accounts then increment_mother_use new_mother s' else s'

unfoldable pub set_mother_internal : Host → Text → Text → TlaRegistry → Reply TlaRegistry
unfolding assert_mother_allowed release_mother install_mother
set_mother_internal env user new_mother s = do
  assert_mother_allowed env user new_mother s
  elim (lookup user s.mothers) [
    | none ↦ ok (install_mother user new_mother s)
    | some old_mother ↦
        if text_eq old_mother new_mother
        then ok s
        else ok (install_mother user new_mother (release_mother old_mother s))
  ]

unfoldable pub set_mother : Host → Text → TlaRegistry → Reply TlaRegistry
unfolding assert_one_yocto assert_not_paused set_mother_internal
set_mother env new_mother s = do
  assert_one_yocto env
  assert_not_paused s
  ensure (contains_key new_mother s.sub_accounts) sub_account_not_found
  set_mother_internal env env.predecessor new_mother s

unfoldable pub admin_clear_mother : Host → Text → TlaRegistry → Reply TlaRegistry
unfolding assert_admin release_mother
admin_clear_mother env user s = do
  assert_admin env s
  previous ← ok_or (lookup user s.mothers) mother_not_set
  ok (release_mother previous (record s { mothers = remove user s.mothers }))
