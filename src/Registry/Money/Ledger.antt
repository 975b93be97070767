-- ===== src/Registry/Money/Ledger.antt =====
-- The refund ledger: the total is the sum of the entries.
use hos_tla_contracts.Base.{
  Dict, Option-cases, Text, [], arith, false, inl, inr, insert, lookup, lookup-insert,
  lookup-remove, min, none, ok, or_else, refl, remove, sat_add, some, text_eq_iff, text_eq_refl,
  u128_max, ℕ, ◌+◌, ◌-◌, ◌∷◌, ◌≡◌, ◌≤◌,
}
use hos_tla_contracts.Host.{Host}
use hos_tla_contracts.Registry.Admin.{claim_refund, claim_refund_settled}
use hos_tla_contracts.Registry.Promises.{Promise, transfer}
use hos_tla_contracts.Registry.State.{TlaRegistry, add_pending_refund}

abbrev pub IsDistinct : Dict ℕ → Type 0
IsDistinct [] = Unit
IsDistinct ((k, v) ∷ d) = (lookup k d ≡ none) × IsDistinct d

abbrev pub sum : Dict ℕ → ℕ
sum [] = 0
sum ((k, v) ∷ d) = v + sum d

pub insert-IsDistinct : (k : Text) (v : ℕ) (d : Dict ℕ) → IsDistinct d → IsDistinct (insert k v d)
unfolding insert lookup
insert-IsDistinct k v [] h = (refl, tt)
insert-IsDistinct k v ((j, w) ∷ d) h =
    ground
      (arith, insert-IsDistinct k v d h.1, lookup-insert k j v d, text_eq_iff j k, text_eq_iff k j)

pub remove-IsDistinct : (k : Text) (d : Dict ℕ) → IsDistinct d → IsDistinct (remove k d)
unfolding remove
remove-IsDistinct k [] h = tt
remove-IsDistinct k ((j, w) ∷ d) h =
    ground (arith, remove-IsDistinct k d h.1, lookup-remove k j d, text_eq_iff j k, text_eq_iff k j)

pub sum-insert :
    (k : Text) (v : ℕ) (d : Dict ℕ) → sum (insert k v d) + or_else (lookup k d) 0 ≡ sum d + v
unfolding insert lookup
sum-insert k v [] = omega arith
sum-insert k v ((j, w) ∷ d) = ground (arith, sum-insert k v d)

remove_absent : (k : Text) (d : Dict ℕ) → lookup k d ≡ none → remove k d ≡ d
unfolding remove lookup
remove_absent k [] h = refl
remove_absent k ((j, w) ∷ d) h = ground (arith, remove_absent k d)

pub sum-remove :
    (k : Text) (d : Dict ℕ) → IsDistinct d → sum (remove k d) + or_else (lookup k d) 0 ≡ sum d
unfolding remove lookup
sum-remove k [] h = refl
sum-remove k ((j, w) ∷ d) h = ground (arith, sum-remove k d h.1, remove_absent k d, text_eq_iff j k)

pub lookup-le-sum : (k : Text) (d : Dict ℕ) → or_else (lookup k d) 0 ≤ sum d
unfolding lookup
lookup-le-sum k [] = omega arith
lookup-le-sum k ((j, w) ∷ d) = ground (arith, lookup-le-sum k d)

-- Each account has one entry, and the running total is the sum of the entries.
pub record IsLedger (s : TlaRegistry) : Type 0 where
  pub distinct : IsDistinct s.pending_refunds
  pub total : s.total_pending_refunds ≡ sum s.pending_refunds

pub add_pending_refund-IsLedger :
    (account : Text) (amount : ℕ) (s : TlaRegistry)
    → s.total_pending_refunds + amount ≤ u128_max
    → IsLedger s
    → IsLedger (add_pending_refund account amount s)
unfolding add_pending_refund sat_add
add_pending_refund-IsLedger account amount s fits h =
    let owed = or_else (lookup account s.pending_refunds) 0 in
    record {
      distinct =
          insert-IsDistinct account (min (owed + amount) u128_max) s.pending_refunds h.distinct;
      total = omega (
        arith,
        sum-insert account (min (owed + amount) u128_max) s.pending_refunds,
        lookup-le-sum account s.pending_refunds,
      );
    }

abbrev paid_out : Text → ℕ → TlaRegistry → TlaRegistry
paid_out caller amount s = record s {
  pending_refunds = remove caller s.pending_refunds;
  total_pending_refunds = s.total_pending_refunds - amount;
}

claim_refund_inv :
    (env : Host) (s s' : TlaRegistry) (p : Promise) (amount : ℕ)
    → lookup env.predecessor s.pending_refunds ≡ some amount
    → claim_refund env s ≡ ok (s', p)
    → (s' ≡ paid_out env.predecessor amount s) × (p.calls ≡ transfer env.predecessor amount ∷ [])
unfolding claim_refund
claim_refund_inv env s s' p amount found e = (ground arith, ground arith)

paid_out-IsLedger :
    (caller : Text) (amount : ℕ) (s : TlaRegistry)
    → lookup caller s.pending_refunds ≡ some amount
    → IsLedger s
    → IsLedger (paid_out caller amount s)
paid_out-IsLedger caller amount s found h = record {
  distinct = remove-IsDistinct caller s.pending_refunds h.distinct;
  total = ground (arith, sum-remove caller s.pending_refunds h.distinct);
}

paid_out-back :
    (caller : Text) (amount : ℕ) (s : TlaRegistry)
    → lookup caller s.pending_refunds ≡ some amount
    → IsLedger s
    → s.total_pending_refunds ≤ u128_max
    → ((paid_out caller amount s).total_pending_refunds + amount ≡ s.total_pending_refunds)
      × (lookup caller (remove caller s.pending_refunds) ≡ none)
      × (lookup caller
            (claim_refund_settled false caller amount (paid_out caller amount s)).pending_refunds
          ≡ some amount)
unfolding claim_refund_settled sat_add
paid_out-back caller amount s found h fits = ground (
  arith,
  lookup-le-sum caller s.pending_refunds,
  lookup-remove caller caller s.pending_refunds,
  lookup-insert caller caller (min (0 + amount) u128_max) (remove caller s.pending_refunds),
  text_eq_refl caller,
)

pub claim_refund_settles :
    (env : Host) (s s' : TlaRegistry) (p : Promise)
    → IsLedger s
    → s.total_pending_refunds ≤ u128_max
    → claim_refund env s ≡ ok (s', p)
    → (amount : ℕ) × (lookup env.predecessor s.pending_refunds ≡ some amount)
      × (p.calls ≡ transfer env.predecessor amount ∷ [])
      × (s'.total_pending_refunds + amount ≡ s.total_pending_refunds)
      × (lookup env.predecessor s'.pending_refunds ≡ none)
      × IsLedger s'
      × (lookup env.predecessor
            (claim_refund_settled false env.predecessor amount s').pending_refunds
          ≡ some amount)
unfolding claim_refund
claim_refund_settles env s s' p h fits e =
    elim (Option-cases (lookup env.predecessor s.pending_refunds)) [
      | inl nothing ↦ ground arith
      | inr (amount, found) ↦
          let (paid, sent) = claim_refund_inv env s s' p amount found e in
          let (less, gone, back) = paid_out-back env.predecessor amount s found h fits in
          (
            amount,
            found,
            sent,
            rw paid less,
            rw paid gone,
            rw paid (paid_out-IsLedger env.predecessor amount s found h),
            rw paid back,
          )
    ]
