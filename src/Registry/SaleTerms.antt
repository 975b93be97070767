-- ===== src/Registry/SaleTerms.antt =====
-- The terms of a purchase (marketplace.rs): where price and bound key come from, and the lock taken.
use hos_tla_contracts.Base.{
  Bool-cases, Option-cases, Result-cases, Text, arith, inl, inr, lookup, lookup-insert, ok, refl,
  some, text_eq, text_eq_iff, text_eq_refl, true, ℕ, ◌≡◌, ◌≢◌, ◌≤◌, ◌⊎◌,
}
use hos_tla_contracts.Host.{Host, PublicKey}
use hos_tla_contracts.Registry.Buying.{buy_promise, buy_sub_account}
use hos_tla_contracts.Registry.Names.{sub_account_key}
use hos_tla_contracts.Registry.Promises.{PendingBuy, Promise}
use hos_tla_contracts.Registry.SaleLock.{IsIdle, IsLocked}
use hos_tla_contracts.Registry.SalePromise.{AsksFor, promise-AsksFor, sale_transfer}
use hos_tla_contracts.Registry.Sales.{Terms, lock_listing, resolve_and_lock_sale}
use hos_tla_contracts.Registry.State.{TlaRegistry}
use hos_tla_contracts.Registry.Types.{AcceptedOffer, Listing}

-- The price and the owner key are those of the buyer's own accepted offer, or of the listing where
-- there is no such offer.
abbrev pub AreTerms : Text → Text → ℕ → PublicKey → TlaRegistry → Type 0
AreTerms key buyer price bound_key s =
    ((o : AcceptedOffer) × (lookup key s.accepted_offers ≡ some o)
      × (o.buyer ≡ buyer)
      × (price ≡ o.price)
      × (bound_key ≡ o.owner_key))
    ⊎ ((l : Listing) × (lookup key s.listings ≡ some l)
        × ((o : AcceptedOffer) → lookup key s.accepted_offers ≡ some o → o.buyer ≢ buyer)
        × (price ≡ l.price)
        × (bound_key ≡ l.owner_key))

-- A lock that was taken, and the terms that it was taken at.
abbrev IsLockedAt : Text → Text → ℕ → TlaRegistry → Terms → Type 0
IsLockedAt key buyer deposit s terms =
    IsLocked key terms.0 × (terms.1 ≤ deposit) × AreTerms key buyer terms.1 terms.2 s

lock_listing-IsLockedAt :
    (key buyer : Text) (deposit : ℕ) (s : TlaRegistry) (terms : Terms)
    → ((o : AcceptedOffer) → lookup key s.accepted_offers ≡ some o → o.buyer ≢ buyer)
    → lock_listing key deposit s ≡ ok terms
    → IsLockedAt key buyer deposit s terms
unfolding lock_listing
lock_listing-IsLockedAt key buyer deposit s terms other e =
    elim (Option-cases (lookup key s.listings)) [
      | inl unlisted ↦ ground arith
      | inr (l, listed) ↦
          let stored = lookup-insert key key (record l { settling = true }) s.listings in
          (
            inl (ground (arith, text_eq_refl key, stored)),
            ground arith,
            inr (l, listed, other, ground arith, ground arith),
          )
    ]

resolve-IsLockedAt :
    (key buyer : Text) (deposit : ℕ) (s : TlaRegistry) (terms : Terms)
    → resolve_and_lock_sale key buyer deposit s ≡ ok terms
    → IsLockedAt key buyer deposit s terms
unfolding resolve_and_lock_sale
resolve-IsLockedAt key buyer deposit s terms e =
    elim (Option-cases (lookup key s.accepted_offers)) [
      | inl no_offer ↦
          lock_listing-IsLockedAt key buyer deposit s terms (λ o found. cc) (ground arith)
      | inr (o, offered) ↦ elim (Bool-cases (text_eq o.buyer buyer)) [
        | inl own ↦
            let stored = lookup-insert key key (record o { settling = true }) s.accepted_offers in
            (
              inr (ground (arith, text_eq_refl key, stored)),
              ground arith,
              inl (o, offered, (text_eq_iff o.buyer buyer).0 own, ground arith, ground arith),
            )
        | inr other ↦
            lock_listing-IsLockedAt key buyer deposit s terms
              (λ o' found same. ground (arith, text_eq_iff o.buyer buyer)) (ground arith)
      ]
    ]

buy_sub_account_inv :
    (env : Host) (tla_id name : Text) (new_owner_key : PublicKey) (s s' : TlaRegistry) (p : Promise)
    → buy_sub_account env tla_id name new_owner_key s ≡ ok (s', p)
    → (terms : Terms) × (resolve_and_lock_sale
          (sub_account_key tla_id name)
          env.predecessor
          env.attached_deposit
          s
        ≡ ok terms)
      × (s' ≡ terms.0)
      × IsIdle (sub_account_key tla_id name) s
      × (p
          ≡ buy_promise terms.0 (record {
            tla_id = tla_id;
            name = name;
            buyer = env.predecessor;
            new_owner_key = new_owner_key;
            price = terms.1;
            deposit = env.attached_deposit;
            owner_key = terms.2;
            sub_account = sub_account_key tla_id name;
          }))
unfolding buy_sub_account
buy_sub_account_inv env tla_id name new_owner_key s s' p e =
    elim (Result-cases (
      resolve_and_lock_sale (sub_account_key tla_id name) env.predecessor env.attached_deposit s)) [
        | inl (terms, locked) ↦ (terms, locked, ground arith, ground arith, ground arith)
        | inr (e', refused) ↦ ground arith
      ]

-- What a purchase leaves: the sale was idle and is locked, and its promise settles at a price that the
-- deposit covers, for the key that the owner bound.
abbrev pub Buys :
    Host
    → Host
    → TlaRegistry
    → Text
    → Text
    → PublicKey
    → TlaRegistry
    → TlaRegistry
    → Promise
    → Type 0
Buys env gate later tla_id name new_owner_key s s' p =
    let key = sub_account_key tla_id name in
    IsIdle key s
    × IsLocked key s'
    × ((price : ℕ) × (bound_key : PublicKey) × (price ≤ env.attached_deposit)
        × AreTerms key env.predecessor price bound_key s
        × AsksFor gate later s' key
            (λ extension.
              sale_transfer extension key tla_id name new_owner_key bound_key env.predecessor price
                env.attached_deposit)
            p)

-- A purchase that goes through finds the sale idle and leaves it locked, with the price and the
-- bound key of the buyer's own accepted offer, or of the listing where the buyer has no such
-- offer, and the deposit covers the price. With no allowed token its promise is the transfer of
-- the sub-account to the new owner key, with the bound key as the expected one, followed by the
-- settlement for the buyer at that price and deposit; else it asks every allowed token for the
-- sub-account's balance, with a gate that answers with that same transfer where the balances are
-- clear and with nothing where they are not.
pub buy_locks_sale :
    (env gate : Host) (later : TlaRegistry) (tla_id name : Text) (new_owner_key : PublicKey)
    (s s' : TlaRegistry) (p : Promise)
    → buy_sub_account env tla_id name new_owner_key s ≡ ok (s', p)
    → Buys env gate later tla_id name new_owner_key s s' p
buy_locks_sale env gate later tla_id name new_owner_key s s' p e =
    let (terms, resolved, state, idle, promise) =
      buy_sub_account_inv env tla_id name new_owner_key s s' p e in
    let (locked, covered, agreed) =
      resolve-IsLockedAt (sub_account_key tla_id name) env.predecessor env.attached_deposit s terms
        resolved in
    let pending : PendingBuy = record {
      tla_id = tla_id;
      name = name;
      buyer = env.predecessor;
      new_owner_key = new_owner_key;
      price = terms.1;
      deposit = env.attached_deposit;
      owner_key = terms.2;
      sub_account = sub_account_key tla_id name;
    } in
    (
      idle,
      rw state locked,
      (
        terms.1,
        terms.2,
        covered,
        agreed,
        rw (state, promise) (promise-AsksFor gate later terms.0 pending terms.0.ft_allowlist refl),
      ),
    )
