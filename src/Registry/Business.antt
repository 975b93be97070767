-- ===== src/Registry/Business.antt =====
-- contracts/tla-registry/src/business.rs: retraction of a business sub-account, and the cap on them.
use hos_tla_contracts.Base.{
  Option, Text, ensure, if◌then◌else◌, insert, is_some, leb, lookup, none, ok, ok_or, or_else,
  reject, remove, sat_add, some, text_eq, u32_max, u64_max, ℕ, ◌-◌, ◌==◌, ◌>>=◌, ◌>>◌,
}
use hos_tla_contracts.Host.{Host}
use hos_tla_contracts.Registry.Errors.{
  Reply, max_business_subs_reached, no_retraction_scheduled, not_business_tla, only_owner,
  retraction_already_elapsed, retraction_already_scheduled, sub_account_not_found, tla_not_found,
}
use hos_tla_contracts.Registry.Names.{sub_account_key}
use hos_tla_contracts.Registry.State.{
  TlaRegistry, assert_admin, assert_not_paused, assert_one_yocto,
}
use hos_tla_contracts.Registry.Types.{is_business}

unfoldable pub schedule_retraction : Host → Text → Text → TlaRegistry → Reply TlaRegistry
unfolding assert_one_yocto assert_not_paused is_business
schedule_retraction env tla_id name s = do
  assert_one_yocto env
  assert_not_paused s
  let key = sub_account_key tla_id name
  tla ← ok_or (lookup tla_id s.tlas) tla_not_found
  ensure (is_business tla.tla_type) not_business_tla
  sub ← ok_or (lookup key s.sub_accounts) sub_account_not_found
  ensure (text_eq env.predecessor sub.owner) only_owner
  reject (is_some sub.retraction_at) retraction_already_scheduled
  let sub' = record sub { retraction_at = some env.block_timestamp }
  ok (record s { sub_accounts = insert key sub' s.sub_accounts })

unfoldable pub cancel_retraction : Host → Text → Text → TlaRegistry → Reply TlaRegistry
unfolding assert_one_yocto assert_not_paused
cancel_retraction env tla_id name s = do
  assert_one_yocto env
  assert_not_paused s
  let key = sub_account_key tla_id name
  sub ← ok_or (lookup key s.sub_accounts) sub_account_not_found
  ensure (text_eq env.predecessor sub.owner) only_owner
  retraction_at ← ok_or sub.retraction_at no_retraction_scheduled
  reject (leb (sat_add u64_max retraction_at s.fee_config.retraction_notice_ns) env.block_timestamp)
      retraction_already_elapsed
  let sub' = record sub { retraction_at = none }
  ok (record s { sub_accounts = insert key sub' s.sub_accounts })

unfoldable pub set_business_sub_cap : Host → Text → Option ℕ → TlaRegistry → Reply TlaRegistry
unfolding assert_admin is_business
set_business_sub_cap env tla_id cap s = do
  assert_admin env s
  tla ← ok_or (lookup tla_id s.tlas) tla_not_found
  ensure (is_business tla.tla_type) not_business_tla
  elim cap [
    | some value ↦
        ok
          (record s { business_sub_cap_override = insert tla_id value s.business_sub_cap_override })
    | none ↦ ok (record s { business_sub_cap_override = remove tla_id s.business_sub_cap_override })
  ]

unfoldable pub effective_business_cap : Text → TlaRegistry → ℕ
effective_business_cap tla_id s =
    or_else (lookup tla_id s.business_sub_cap_override) s.fee_config.business_max_subs

-- `get_business_sub_count`
unfoldable pub business_count : Text → TlaRegistry → ℕ
business_count tla_id s = or_else (lookup tla_id s.business_sub_count) 0

unfoldable pub business_count_check_and_bump : Text → TlaRegistry → Reply TlaRegistry
unfolding effective_business_cap business_count
business_count_check_and_bump tla_id s =
    let cap = effective_business_cap tla_id s in
    let count = business_count tla_id s in
    reject (leb cap count) max_business_subs_reached
    >> ok (record s {
      business_sub_count = insert tla_id (sat_add u32_max count 1) s.business_sub_count;
    })

unfoldable pub business_count_decrement : Text → TlaRegistry → TlaRegistry
unfolding business_count
business_count_decrement tla_id s =
    let count = business_count tla_id s in
    let next = count - 1 in
    if count == 0
    then s
    else if next == 0
    then record s { business_sub_count = remove tla_id s.business_sub_count }
    else record s { business_sub_count = insert tla_id next s.business_sub_count }

unfoldable pub business_count_decrement_if_business : Text → TlaRegistry → TlaRegistry
unfolding business_count_decrement is_business
business_count_decrement_if_business tla_id s = elim (lookup tla_id s.tlas) [
  | none ↦ s
  | some tla ↦ if is_business tla.tla_type then business_count_decrement tla_id s else s
]
