-- ===== src/Examples/Fixtures.antt =====
-- A registry with one open TLA, one business TLA and a rented sub-account, and calls of it.
use hos_tla_contracts.Base.{Text, [], codes, err, false, none, ok, some, true, ℕ, ◌++◌, ◌∷◌}
use hos_tla_contracts.Host.{CurveType, Host, PublicKey}
use hos_tla_contracts.Registry.Errors.{Reply}
use hos_tla_contracts.Registry.Promises.{Promise}
use hos_tla_contracts.Registry.State.{TlaRegistry}
use hos_tla_contracts.Registry.Types.{
  FeeConfig, PremiumCategory, SubAccountEntry, TlaEntry, TlaStatus, TlaType,
}

abbrev pub alice : Text
alice = codes "alice"

abbrev pub bob : Text
bob = codes "bob"

abbrev pub root : Text
root = codes "root"

abbrev pub tla : Text
tla = codes "hos"

abbrev pub corp : Text
corp = codes "corp"

abbrev pub shop : Text
shop = codes "shop"

abbrev pub shop_key : Text
shop_key = codes "shop.hos"

abbrev pub key_of : ℕ → PublicKey
key_of n = record { curve_type = CurveType.ed25519; key_data = n ∷ [] }

-- A call with the given caller, deposit and time.
abbrev pub call : Text → ℕ → ℕ → Host
call caller deposit now = record {
  predecessor = caller;
  current_account = codes "registry";
  attached_deposit = deposit;
  block_timestamp = now;
  account_balance = 1000000;
  storage_byte_cost = 1;
  storage_usage = 10;
  promise_results = [];
  is_account_id = λ k. true;
  key_to_string = λ k. codes "ed25519:" ++ k.key_data;
  parse_u128 = λ bytes. elim bytes [ [] ↦ none | b ∷ rest ↦ some b ];
}

abbrev pub config : FeeConfig
config = record {
  tla_allocation_fee = 100;
  rent_tier_5 = 50;
  rent_tier_8 = 20;
  rent_tier_10 = 10;
  rent_tier_12plus = 5;
  sub_fee_per_account = 3;
  account_creation_deposit = 2;
  business_max_subs = 4;
  retraction_notice_ns = 70;
  resale_commission_bps = 1000;
}

abbrev pub open_entry : TlaEntry
open_entry = record {
  tla_type = TlaType.open_tla;
  status = TlaStatus.active;
  licensee = none;
  premium_category = PremiumCategory.standard;
  activated_at = 0;
  expires_at = 1000;
}

abbrev pub corp_entry : TlaEntry
corp_entry = record {
  tla_type = TlaType.business;
  status = TlaStatus.registered;
  licensee = some bob;
  premium_category = PremiumCategory.standard;
  activated_at = 0;
  expires_at = 0;
}

abbrev pub shop_entry : SubAccountEntry
shop_entry = record {
  owner = alice;
  tla_id = tla;
  main_wallet = alice;
  rented_at = 0;
  expires_at = 500;
  retraction_at = none;
}

abbrev pub registry : TlaRegistry
registry = record {
  tlas = (tla, open_entry) ∷ (corp, corp_entry) ∷ [];
  sub_accounts = (shop_key, shop_entry) ∷ [];
  admins = root ∷ [];
  fee_config = config;
  total_revenue = 40;
  sub_account_count = 1;
  is_paused = false;
  version = 1;
  pending_refunds = (alice, 7) ∷ [];
  total_pending_refunds = 7;
  ft_allowlist = [];
  mothers = [];
  mother_use_count = [];
  business_sub_count = [];
  business_sub_cap_override = [];
  listings = (shop_key, record { price = 30; settling = false; owner_key = key_of 1 }) ∷ [];
  accepted_offers = [];
  parked_names = [];
  signer_pending = [];
  reclaim_pending = [];
  payment_authorities = [];
  hos_extension = codes "ext";
  active_signer = codes "signer";
  parked_signer_pubkey = key_of 9;
  grace_period_ns = 100;
}

-- The state that a call leaves, or the state before it if the call fails.
abbrev pub after : TlaRegistry → Reply TlaRegistry → TlaRegistry
after s (ok s') = s'
after s (err e) = s

abbrev pub after_first : TlaRegistry → Reply (TlaRegistry × Promise) → TlaRegistry
after_first s (ok (s', p)) = s'
after_first s (err e) = s

abbrev pub no_promise : Promise
no_promise = record { calls = []; callback = none }

abbrev pub promise_of : Reply (TlaRegistry × Promise) → Promise
promise_of (ok (s', p)) = p
promise_of (err e) = no_promise
