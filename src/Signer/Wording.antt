-- ===== src/Signer/Wording.antt =====
-- The texts that the signer relies on: the domains of the proofs, and the names of direct sub-accounts.
use hos_tla_contracts.Signer.Owners
use hos_tla_contracts.Base.{Text, [], ap, arith, refl, suc, true, zero, ℕ, ◌++◌, ◌∷◌, ◌≡◌}
use hos_tla_contracts.Signer.Payloads.{DomainTag, domain, freeze_tag, message_tag, tx_tag}

-- The byte at a place, or 0.
abbrev byte_at : ℕ → Text → ℕ
byte_at n [] = 0
byte_at zero (c ∷ s) = c
byte_at (suc n) (c ∷ s) = byte_at n s

-- The bytes that a freeze, a transaction or a message proof signs begin differently: equal bytes,
-- whatever follows the domains, have the same kind.
pub domain_fixes_tag : (a b : DomainTag) (m n : Text) → domain a ++ m ≡ domain b ++ n → a ≡ b
unfolding domain
domain_fixes_tag freeze_tag freeze_tag m n e = refl
domain_fixes_tag freeze_tag tx_tag m n e = absurd (omega (arith, ap (byte_at 23) e))
domain_fixes_tag freeze_tag message_tag m n e = absurd (omega (arith, ap (byte_at 23) e))
domain_fixes_tag tx_tag freeze_tag m n e = absurd (omega (arith, ap (byte_at 23) e))
domain_fixes_tag tx_tag tx_tag m n e = refl
domain_fixes_tag tx_tag message_tag m n e = absurd (omega (arith, ap (byte_at 23) e))
domain_fixes_tag message_tag freeze_tag m n e = absurd (omega (arith, ap (byte_at 23) e))
domain_fixes_tag message_tag tx_tag m n e = absurd (omega (arith, ap (byte_at 23) e))
domain_fixes_tag message_tag message_tag m n e = refl

-- A label, a dot and the parent.
abbrev pub IsLabelOf : Text → Text → Type 0
IsLabelOf wallet parent =
    (label : Text) × (wallet ≡ label ++ (Owners.dot ∷ parent)) × (Owners.is_label label ≡ true)
