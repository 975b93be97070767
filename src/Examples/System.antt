-- ===== src/Examples/System.antt =====
-- The invariant of the registry along a concrete run.
use hos_tla_contracts.Registry.Admin
use hos_tla_contracts.Registry.System
use hos_tla_contracts.Base.{
  arith, codes, insert, lookup, member, ok, or_else, refl, sat_add, some, text_eq, u128_max, ◌*◌,
  ◌<◌, ◌≡◌,
}
use hos_tla_contracts.Examples.Fixtures.{after, bob, call, corp, key_of, registry, root}
use hos_tla_contracts.Host.{Host}
use hos_tla_contracts.Registry.Fees.{base_rent}
use hos_tla_contracts.Registry.Money.Ledger.{IsLedger}
use hos_tla_contracts.Registry.Rental.{activate_tla}
use hos_tla_contracts.Registry.State.{TlaRegistry}
use hos_tla_contracts.Registry.System.{Method, Step, here, next}
use hos_tla_contracts.Registry.System.Configuration.{IsConfigured}
use hos_tla_contracts.Registry.System.LedgerRuns.{new-Reach-IsLedger}
use hos_tla_contracts.Registry.System.Reachable.{new-Reach-IsConfigured}
use hos_tla_contracts.Registry.Types.{PremiumCategory, TlaType, one_near}

abbrev fresh : TlaRegistry
fresh =
    or_else
      (Admin.new (call root 0 0) root (codes "ext") (codes "signer") (key_of 9)
        Admin.min_grace_period_ns)
      registry

fresh_ok :
    Admin.new
      (call root 0 0)
      root
      (codes "ext")
      (codes "signer")
      (key_of 9)
      Admin.min_grace_period_ns
    ≡ some fresh
unfolding Admin.new text_eq
fresh_ok = refl

abbrev registers_corp : Method
registers_corp = Method.register_tla corp TlaType.business PremiumCategory.standard (some bob)

abbrev with_corp : TlaRegistry
with_corp = after fresh (System.run (call root 0 5) registers_corp fresh)

register_ok : System.run (call root 0 5) registers_corp fresh ≡ ok with_corp
unfolding System.run Admin.new Admin.register_tla lookup insert text_eq member
register_ok = refl

new-Reach-IsConfigured_example : IsConfigured with_corp
new-Reach-IsConfigured_example =
    new-Reach-IsConfigured (call root 0 0) root (codes "ext") (codes "signer") (key_of 9)
      Admin.min_grace_period_ns fresh with_corp fresh_ok
      (next here (Step.call (call root 0 5) registers_corp register_ok))

abbrev activates_corp : Method
activates_corp = Method.activate_tla corp

-- One NEAR more than the allocation fee and the rent.
abbrev activation : Host
activation = call bob (1051 * one_near) 6

abbrev refunded : TlaRegistry
refunded = after with_corp (System.run activation activates_corp with_corp)

activate_ok : System.run activation activates_corp with_corp ≡ ok refunded
unfolding System.run activate_tla Admin.register_tla member Admin.new text_eq lookup sat_add
    base_rent insert
activate_ok = refl

owed_so_far :
    ((fresh.total_pending_refunds < u128_max) × (with_corp.total_pending_refunds < u128_max))
    × (refunded.total_pending_refunds < u128_max)
unfolding System.run activate_tla Admin.register_tla member Admin.new text_eq lookup sat_add
    base_rent insert
owed_so_far = ((ground arith, ground arith), ground arith)

new-Reach-IsLedger_example : IsLedger refunded
new-Reach-IsLedger_example =
    new-Reach-IsLedger (call root 0 0) root (codes "ext") (codes "signer") (key_of 9)
      Admin.min_grace_period_ns fresh refunded fresh_ok
      (next (next here (Step.call (call root 0 5) registers_corp register_ok))
        (Step.call activation activates_corp activate_ok))
      owed_so_far
