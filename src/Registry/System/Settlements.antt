-- ===== src/Registry/System/Settlements.antt =====
-- What the callbacks of the registry do to the refund ledger: they credit accounts.
use hos_tla_contracts.Registry.Admin
use hos_tla_contracts.Registry.Renewal
use hos_tla_contracts.Registry.Listings
use hos_tla_contracts.Registry.Minting
use hos_tla_contracts.Registry.Buying
use hos_tla_contracts.Registry.Reclaim
use hos_tla_contracts.Base.{
  Bool, Bool-cases, List, Option, Option-cases, Text, arith, false, inl, inr, lookup, ltb, none, ok,
  refl, sat_add, some, true, u128_max, ℕ, ◌-◌, ◌≡◌,
}
use hos_tla_contracts.Common.Keys.{MintOutcome}
use hos_tla_contracts.Host.{Host, PublicKey}
use hos_tla_contracts.Registry.AssetGate.{BalanceGate, blocked, clear, ft_balances_clear}
use hos_tla_contracts.Registry.Errors.{Reply}
use hos_tla_contracts.Registry.Fees.{split_resale}
use hos_tla_contracts.Registry.Names.{sub_account_key}
use hos_tla_contracts.Registry.Promises.{PendingBuy, PendingReRent}
use hos_tla_contracts.Registry.Sales.{clear_settling}
use hos_tla_contracts.Registry.State.{TlaRegistry, add_pending_refund, refund_excess}
use hos_tla_contracts.Registry.System.{
  Settlement, buy_checked, buy_paid_checked, created, created_paid, listing_checked, offer_checked,
  re_rent_checked, re_rented, reclaim_checked, reclaimed, refund_settled, retry_settled, settle,
  sold, sold_paid,
}
use hos_tla_contracts.Registry.System.Credits.{
  Credits, SameBooks, books_of, kept_books, one_credit, then_credit,
}
use hos_tla_contracts.Registry.System.Untouched.{reclaimed-Untouched}
use hos_tla_contracts.Registry.Types.{SubAccountEntry}

went_to :
    (s s' : TlaRegistry) {t : TlaRegistry}
    → Credits s t
    → Path (Reply TlaRegistry) (ok t) (ok s')
    → Credits s s'
went_to s s' {t} c h = let same : t ≡ s' = ground arith in rw (← same) c

failed-Credits :
    (key t payer : Text) (attached : ℕ) (s : TlaRegistry)
    → Credits s (Minting.settle_failed_mint key t payer attached s)
unfolding Minting.settle_failed_mint
failed-Credits key t payer attached s =
    one_credit payer attached s (Minting.settle_failed_mint key t payer attached s) (ground arith)

excess-Credits :
    (payer : Text) (attached charged : ℕ) (s t : TlaRegistry)
    → SameBooks s t
    → Credits s (refund_excess payer attached charged t)
unfolding refund_excess
excess-Credits payer attached charged s t same = elim (Bool-cases (ltb 0 (attached - charged))) [
  | inl more ↦
      one_credit payer (attached - charged) s (refund_excess payer attached charged t)
        (ground arith)
  | inr exact ↦ kept_books (ground arith)
]

created-Credits :
    (key payer : Text) (rent attached : ℕ) (s s' : TlaRegistry)
    → Minting.record_rental key payer rent attached s ≡ ok s'
    → Credits s s'
unfolding Minting.record_rental
created-Credits key payer rent attached s s' h =
    let charged = sat_add u128_max rent s.fee_config.account_creation_deposit in
    elim (Bool-cases (ltb 0 (attached - charged))) [
      | inl more ↦ one_credit payer (attached - charged) s s' (ground arith)
      | inr exact ↦ kept_books (ground arith)
    ]

created_paid-Credits :
    (key payer : Text) (attached : ℕ) (s s' : TlaRegistry)
    → Minting.record_paid_rental key payer attached s ≡ ok s'
    → Credits s s'
unfolding Minting.record_paid_rental
created_paid-Credits key payer attached s s' h =
    let charged = s.fee_config.account_creation_deposit in
    elim (Bool-cases (ltb 0 (attached - charged))) [
      | inl more ↦ one_credit payer (attached - charged) s s' (ground arith)
      | inr exact ↦ kept_books (ground arith)
    ]

pending-Credits :
    (t n payer : Text) (k : PublicKey) (rent attached : ℕ) (s s' : TlaRegistry)
    → Minting.sub_account_created (some MintOutcome.signer_pending) t n payer k rent attached s
      ≡ ok s'
    → Credits s s'
unfolding Minting.sub_account_created
pending-Credits t n payer k rent attached s s' h =
    let charged = sat_add u128_max rent s.fee_config.account_creation_deposit in
    elim (Bool-cases (ltb 0 (attached - charged))) [
      | inl more ↦ one_credit payer (attached - charged) s s' (ground arith)
      | inr exact ↦ kept_books (ground arith)
    ]

pending_paid-Credits :
    (t n payer : Text) (k : PublicKey) (rent attached : ℕ) (s s' : TlaRegistry)
    → Minting.sub_account_created_paid (some MintOutcome.signer_pending) t n payer k rent attached s
      ≡ ok s'
    → Credits s s'
unfolding Minting.sub_account_created_paid
pending_paid-Credits t n payer k rent attached s s' h =
    let charged = s.fee_config.account_creation_deposit in
    elim (Bool-cases (ltb 0 (attached - charged))) [
      | inl more ↦ one_credit payer (attached - charged) s s' (ground arith)
      | inr exact ↦ kept_books (ground arith)
    ]

re_rented-Credits :
    (done : Bool) (t n payer : Text) (rent attached : ℕ) (s : TlaRegistry)
    → Credits s (Minting.sub_account_re_rented done t n payer rent attached s)
unfolding Minting.sub_account_re_rented
re_rented-Credits true t n payer rent attached s =
    excess-Credits payer attached rent s _ (record { pending = refl; total = refl })
re_rented-Credits false t n payer rent attached s =
    failed-Credits (sub_account_key t n) t payer attached s

re_rent_gate-Credits :
    (env : Host) (p : PendingReRent) (l : List Text) (s : TlaRegistry) (g : BalanceGate)
    → ft_balances_clear env l ≡ g
    → Credits s (Minting.re_rent_balances_checked env p l s).0
unfolding Minting.re_rent_balances_checked
re_rent_gate-Credits env p l s (blocked token reason) h =
    rw (h, Minting.re_rent_balances_checked)
      (failed-Credits (sub_account_key p.tla_id p.name) p.tla_id p.payer p.attached s)
re_rent_gate-Credits env p l s clear h =
    rw (h, Minting.re_rent_balances_checked) (kept_books (record { pending = refl; total = refl }))

abort-Credits :
    (key : Text) (p : PendingBuy) (s : TlaRegistry) → Credits s (Buying.abort_sale key p s)
unfolding Buying.abort_sale
abort-Credits key p s = one_credit p.buyer p.deposit s (Buying.abort_sale key p s) (ground arith)

buy_gate-Credits :
    (env : Host) (p : PendingBuy) (l : List Text) (s : TlaRegistry) (g : BalanceGate)
    → ft_balances_clear env l ≡ g
    → Credits s (Buying.buy_balances_checked env p l s).0
unfolding Buying.buy_balances_checked
buy_gate-Credits env p l s (blocked token reason) h =
    rw (h, Buying.buy_balances_checked) (abort-Credits (sub_account_key p.tla_id p.name) p s)
buy_gate-Credits env p l s clear h =
    rw (h, Buying.buy_balances_checked) (kept_books (record { pending = refl; total = refl }))

back-Credits :
    (key account : Text) (amount : ℕ) (s : TlaRegistry)
    → Credits s (clear_settling key (add_pending_refund account amount s))
unfolding clear_settling add_pending_refund
back-Credits key account amount s =
    one_credit account amount s (clear_settling key (add_pending_refund account amount s))
      (ground arith)

booked-Credits :
    (sub : SubAccountEntry) (key buyer : Text) (price deposit : ℕ) (s : TlaRegistry)
    → Credits s (Buying.hand_over key buyer buyer (Buying.settle_books sub buyer price deposit s))
unfolding Buying.settle_books Buying.hand_over add_pending_refund
booked-Credits sub key buyer price deposit s =
    let proceeds = (split_resale price s.fee_config.resale_commission_bps).1 in
    let paid = add_pending_refund sub.owner proceeds s in
    let left = Buying.hand_over key buyer buyer (Buying.settle_books sub buyer price deposit s) in
    elim (Bool-cases (ltb 0 (deposit - price))) [
      | inl more ↦
          then_credit (one_credit sub.owner proceeds s paid (ground arith)) buyer (deposit - price)
            (ground arith)
      | inr exact ↦ one_credit sub.owner proceeds s left (ground arith)
    ]

sold-Credits :
    (swapped : Option Bool) (t n buyer : Text) (price deposit : ℕ) (s : TlaRegistry)
    → Credits s (Buying.sub_account_sold swapped t n buyer price deposit s)
unfolding Buying.sub_account_sold
sold-Credits none t n buyer price deposit s = back-Credits (sub_account_key t n) buyer deposit s
sold-Credits (some false) t n buyer price deposit s =
    back-Credits (sub_account_key t n) buyer deposit s
sold-Credits (some true) t n buyer price deposit s =
    let key = sub_account_key t n in
    elim (Option-cases (lookup key s.sub_accounts)) [
      | inl gone ↦ rw gone (back-Credits key buyer deposit s)
      | inr (sub, found) ↦ rw found (booked-Credits sub key buyer price deposit s)
    ]

pub settle-Credits :
    (env : Host) (c : Settlement) (s s' : TlaRegistry) → settle env c s ≡ ok s' → Credits s s'
unfolding settle Admin.claim_refund_settled Minting.sub_account_created
    Minting.sub_account_created_paid Renewal.retry_signer_settled Listings.listing_verified
    Listings.offer_verified Buying.buy_paid_balances_checked Buying.sub_account_sold_paid
    Reclaim.balances_checked
settle-Credits env (refund_settled true c a) s s' h = kept_books (ground arith)
settle-Credits env (refund_settled false c a) s s' h = one_credit c a s s' (ground arith)
settle-Credits env (created none t n p k r a) s s' h =
    went_to s s' (failed-Credits (sub_account_key t n) t p a s) h
settle-Credits env (created (some MintOutcome.active) t n p k r a) s s' h =
    created-Credits (sub_account_key t n) p r a s s' h
settle-Credits env (created (some MintOutcome.signer_pending) t n p k r a) s s' h =
    pending-Credits t n p k r a s s' h
settle-Credits env (created (some MintOutcome.creation_failed) t n p k r a) s s' h =
    went_to s s' (failed-Credits (sub_account_key t n) t p a s) h
settle-Credits env (created_paid none t n p k r a) s s' h =
    went_to s s' (failed-Credits (sub_account_key t n) t p a s) h
settle-Credits env (created_paid (some MintOutcome.active) t n p k r a) s s' h =
    created_paid-Credits (sub_account_key t n) p a s s' h
settle-Credits env (created_paid (some MintOutcome.signer_pending) t n p k r a) s s' h =
    pending_paid-Credits t n p k r a s s' h
settle-Credits env (created_paid (some MintOutcome.creation_failed) t n p k r a) s s' h =
    went_to s s' (failed-Credits (sub_account_key t n) t p a s) h
settle-Credits env (re_rented done t n p r a) s s' h =
    went_to s s' (re_rented-Credits done t n p r a s) h
settle-Credits env (re_rent_checked p l) s s' h =
    went_to s s' (re_rent_gate-Credits env p l s (ft_balances_clear env l) refl) h
settle-Credits env (retry_settled done k) s s' h = kept_books (ground arith)
settle-Credits env (listing_checked c t n price k o) s s' h = kept_books (ground arith)
settle-Credits env (offer_checked c t n b price k o) s s' h = kept_books (ground arith)
settle-Credits env (buy_checked p l) s s' h =
    went_to s s' (buy_gate-Credits env p l s (ft_balances_clear env l) refl) h
settle-Credits env (buy_paid_checked p l o) s s' h = kept_books (ground arith)
settle-Credits env (sold w t n b price d) s s' h = went_to s s' (sold-Credits w t n b price d s) h
settle-Credits env (sold_paid w t n b o) s s' h = kept_books (ground arith)
settle-Credits env (reclaim_checked t n d l) s s' h = kept_books (ground arith)
settle-Credits env (reclaimed done t n) s s' h =
    went_to s s' (books_of (reclaimed-Untouched env done t n s)) h
