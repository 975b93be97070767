-- ===== src/Registry/System/Configuration.antt =====
-- The configuration of the registry: what every call and callback keeps true of it.
use hos_tla_contracts.Registry.Rental
use hos_tla_contracts.Registry.Renewal
use hos_tla_contracts.Registry.Admin
use hos_tla_contracts.Base.{
  Bool-cases, Dict, Option, Option-cases, Text, add_member, arith, drop_member, inl, inr, insert,
  is_some, length, length-add_member_bounds, length-drop_member_bounds, lookup, lookup-insert, ok,
  some, text_eq, true, ℕ, ◌≡◌, ◌≤◌,
}
use hos_tla_contracts.Host.{Host, PublicKey}
use hos_tla_contracts.Registry.Admin.{new}
use hos_tla_contracts.Registry.Fees.{default_fee_config}
use hos_tla_contracts.Registry.State.{TlaRegistry}
use hos_tla_contracts.Registry.System.Frame.{SameSettings}
use hos_tla_contracts.Registry.Types.{
  FeeConfig, PremiumCategory, TlaEntry, TlaStatus, TlaType, is_business,
}

-- Every business TLA has a licensee.
abbrev pub HasLicensees : Dict TlaEntry → Type 0
HasLicensees tlas =
    (t : Text) (tla : TlaEntry)
    → lookup t tlas ≡ some tla
    → is_business tla.tla_type ≡ true
    → is_some tla.licensee ≡ true

pub record IsConfigured (s : TlaRegistry) : Type 0 where
  pub has_admin : 1 ≤ length s.admins
  pub allowlist_fits : length s.ft_allowlist ≤ Admin.max_allowlist_size
  pub deposit_charged : 1 ≤ s.fee_config.account_creation_deposit
  pub commission_bounded : s.fee_config.resale_commission_bps ≤ 10000
  pub grace_given : Admin.min_grace_period_ns ≤ s.grace_period_ns
  pub licensed : HasLicensees s.tlas

insert-HasLicensees :
    (t : Text) (tla : TlaEntry) (tlas : Dict TlaEntry)
    → HasLicensees tlas
    → (is_business tla.tla_type ≡ true → is_some tla.licensee ≡ true)
    → HasLicensees (insert t tla tlas)
insert-HasLicensees t tla tlas h new u other found = elim (Bool-cases (text_eq t u)) [
  | inl same ↦ ground (arith, lookup-insert t u tla tlas)
  | inr differs ↦ λ b. h u other (ground (arith, lookup-insert t u tla tlas)) b
]

pub same-IsConfigured : (s s' : TlaRegistry) → SameSettings s s' → IsConfigured s → IsConfigured s'
same-IsConfigured s s' same c = record {
  has_admin = rw same.admins c.has_admin;
  allowlist_fits = rw same.ft_allowlist c.allowlist_fits;
  deposit_charged = rw same.fee_config c.deposit_charged;
  commission_bounded = rw same.fee_config c.commission_bounded;
  grace_given = rw same.grace_period_ns c.grace_given;
  licensed = rw same.tlas c.licensed;
}

-- Two states that differ in their TLAs, and in nothing else of the configuration.
record OnlyTla (t : Text) (tla : TlaEntry) (s s' : TlaRegistry) : Type 0 where
  tlas : s'.tlas ≡ insert t tla s.tlas
  admins : s'.admins ≡ s.admins
  fee_config : s'.fee_config ≡ s.fee_config
  ft_allowlist : s'.ft_allowlist ≡ s.ft_allowlist
  grace_period_ns : s'.grace_period_ns ≡ s.grace_period_ns

tla-IsConfigured :
    (t : Text) (tla : TlaEntry) (s s' : TlaRegistry)
    → OnlyTla t tla s s'
    → (is_business tla.tla_type ≡ true → is_some tla.licensee ≡ true)
    → IsConfigured s
    → IsConfigured s'
tla-IsConfigured t tla s s' only new c = record {
  has_admin = rw only.admins c.has_admin;
  allowlist_fits = rw only.ft_allowlist c.allowlist_fits;
  deposit_charged = rw only.fee_config c.deposit_charged;
  commission_bounded = rw only.fee_config c.commission_bounded;
  grace_given = rw only.grace_period_ns c.grace_given;
  licensed = rw only.tlas (insert-HasLicensees t tla s.tlas c.licensed new);
}

pub new-IsConfigured :
    (env : Host) (admin hos_extension active_signer : Text) (k : PublicKey) (period : ℕ)
    (s : TlaRegistry)
    → Admin.new env admin hos_extension active_signer k period ≡ some s
    → IsConfigured s
unfolding Admin.new lookup default_fee_config
new-IsConfigured env admin hos_extension active_signer k period s e = record {
  has_admin = ground arith;
  allowlist_fits = ground arith;
  deposit_charged = ground arith;
  commission_bounded = ground arith;
  grace_given = ground arith;
  licensed = ground arith;
}

pub activate_tla-IsConfigured :
    (env : Host) (t : Text) (s s' : TlaRegistry)
    → Rental.activate_tla env t s ≡ ok s'
    → IsConfigured s
    → IsConfigured s'
unfolding Rental.activate_tla
activate_tla-IsConfigured env t s s' e c = elim (Option-cases (lookup t s.tlas)) [
  | inl unknown ↦ ground arith
  | inr (tla, found) ↦
      tla-IsConfigured t (Rental.activated env.block_timestamp tla) s s' (ground arith)
        (ground arith) c
]

pub renew_tla-IsConfigured :
    (env : Host) (t : Text) (s s' : TlaRegistry)
    → Renewal.renew_tla env t s ≡ ok s'
    → IsConfigured s
    → IsConfigured s'
unfolding Renewal.renew_tla
renew_tla-IsConfigured env t s s' e c = elim (Option-cases (lookup t s.tlas)) [
  | inl unknown ↦ ground arith
  | inr (tla, found) ↦
      tla-IsConfigured t
        (record tla { expires_at = Renewal.renewed_expiry env.block_timestamp tla.expires_at }) s s'
        (ground arith) (c.licensed t tla found) c
]

pub suspend_tla-IsConfigured :
    (env : Host) (t : Text) (s s' : TlaRegistry)
    → Admin.suspend_tla env t s ≡ ok s'
    → IsConfigured s
    → IsConfigured s'
unfolding Admin.suspend_tla
suspend_tla-IsConfigured env t s s' e c = elim (Option-cases (lookup t s.tlas)) [
  | inl unknown ↦ ground arith
  | inr (tla, found) ↦
      tla-IsConfigured t (record tla { status = TlaStatus.suspended }) s s' (ground arith)
        (c.licensed t tla found) c
]

pub unsuspend_tla-IsConfigured :
    (env : Host) (t : Text) (s s' : TlaRegistry)
    → Admin.unsuspend_tla env t s ≡ ok s'
    → IsConfigured s
    → IsConfigured s'
unfolding Admin.unsuspend_tla
unsuspend_tla-IsConfigured env t s s' e c = elim (Option-cases (lookup t s.tlas)) [
  | inl unknown ↦ ground arith
  | inr (tla, found) ↦
      tla-IsConfigured t (record tla { status = TlaStatus.active }) s s' (ground arith)
        (c.licensed t tla found) c
]

pub activate_open_tla-IsConfigured :
    (env : Host) (t : Text) (s s' : TlaRegistry)
    → Admin.activate_open_tla env t s ≡ ok s'
    → IsConfigured s
    → IsConfigured s'
unfolding Admin.activate_open_tla
activate_open_tla-IsConfigured env t s s' e c = elim (Option-cases (lookup t s.tlas)) [
  | inl unknown ↦ ground arith
  | inr (tla, found) ↦
      tla-IsConfigured t (Rental.activated env.block_timestamp tla) s s' (ground arith)
        (c.licensed t tla found) c
]

pub register_tla-IsConfigured :
    (env : Host) (t : Text) (kind : TlaType) (category : PremiumCategory) (licensee : Option Text)
    (s s' : TlaRegistry)
    → Admin.register_tla env t kind category licensee s ≡ ok s'
    → IsConfigured s
    → IsConfigured s'
unfolding Admin.register_tla
register_tla-IsConfigured env t kind category licensee s s' e c =
    let tla : TlaEntry = record {
      tla_type = kind;
      status = TlaStatus.registered;
      licensee = licensee;
      premium_category = category;
      activated_at = 0;
      expires_at = 0;
    } in
    tla-IsConfigured t tla s s' (ground arith) (ground arith) c

pub remove_admin-IsConfigured :
    (env : Host) (a : Text) (s s' : TlaRegistry)
    → Admin.remove_admin env a s ≡ ok s'
    → IsConfigured s
    → IsConfigured s'
unfolding Admin.remove_admin
remove_admin-IsConfigured env a s s' e c =
    let left : s' ≡ record s { admins = drop_member a s.admins } = ground arith in
    let several : 2 ≤ length s.admins = ground arith in
    rw left (record {
      has_admin = omega (arith, several, length-drop_member_bounds a s.admins);
      allowlist_fits = c.allowlist_fits;
      deposit_charged = c.deposit_charged;
      commission_bounded = c.commission_bounded;
      grace_given = c.grace_given;
      licensed = c.licensed;
    })

pub add_admin-IsConfigured :
    (env : Host) (a : Text) (s s' : TlaRegistry)
    → Admin.add_admin env a s ≡ ok s'
    → IsConfigured s
    → IsConfigured s'
unfolding Admin.add_admin
add_admin-IsConfigured env a s s' e c =
    let left : s' ≡ record s { admins = add_member a s.admins } = ground arith in
    rw left (record {
      has_admin = omega (arith, c.has_admin, length-add_member_bounds a s.admins);
      allowlist_fits = c.allowlist_fits;
      deposit_charged = c.deposit_charged;
      commission_bounded = c.commission_bounded;
      grace_given = c.grace_given;
      licensed = c.licensed;
    })

pub add_ft_allowlist-IsConfigured :
    (env : Host) (token : Text) (s s' : TlaRegistry)
    → Admin.add_ft_allowlist env token s ≡ ok s'
    → IsConfigured s
    → IsConfigured s'
unfolding Admin.add_ft_allowlist
add_ft_allowlist-IsConfigured env token s s' e c = record {
  has_admin = ground arith;
  allowlist_fits = ground (arith, length-add_member_bounds token s.ft_allowlist);
  deposit_charged = ground arith;
  commission_bounded = ground arith;
  grace_given = ground arith;
  licensed = rw (tlas_kept) c.licensed;
}
  where
    tlas_kept : s'.tlas ≡ s.tlas
    tlas_kept = ground arith

pub remove_ft_allowlist-IsConfigured :
    (env : Host) (token : Text) (s s' : TlaRegistry)
    → Admin.remove_ft_allowlist env token s ≡ ok s'
    → IsConfigured s
    → IsConfigured s'
unfolding Admin.remove_ft_allowlist
remove_ft_allowlist-IsConfigured env token s s' e c =
    let left : s' ≡ record s { ft_allowlist = drop_member token s.ft_allowlist } = ground arith in
    rw left (record {
      has_admin = c.has_admin;
      allowlist_fits =
          omega (arith, c.allowlist_fits, length-drop_member_bounds token s.ft_allowlist);
      deposit_charged = c.deposit_charged;
      commission_bounded = c.commission_bounded;
      grace_given = c.grace_given;
      licensed = c.licensed;
    })

pub update_fee_config-IsConfigured :
    (env : Host) (config : FeeConfig) (s s' : TlaRegistry)
    → Admin.update_fee_config env config s ≡ ok s'
    → IsConfigured s
    → IsConfigured s'
unfolding Admin.update_fee_config
update_fee_config-IsConfigured env config s s' e c =
    let left : s' ≡ record s { fee_config = config } = ground arith in
    rw left (record {
      has_admin = c.has_admin;
      allowlist_fits = c.allowlist_fits;
      deposit_charged = ground arith;
      commission_bounded = ground arith;
      grace_given = c.grace_given;
      licensed = c.licensed;
    })
