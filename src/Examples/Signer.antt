-- ===== src/Examples/Signer.antt =====
-- The signer with a window that keeps every used number, and its theorems at concrete inputs.
use hos_tla_contracts.Signer.System
use hos_tla_contracts.Signer.Signing
use hos_tla_contracts.Signer.Owners
use hos_tla_contracts.Base.{
  Bool, List, Text, [], arith, codes, err, false, if◌then◌else◌, insert, is_ok, lookup, none, ok,
  refl, some, text_eq, true, ℕ, ◌==◌, ◌||◌, ◌∷◌, ◌≡◌,
}
use hos_tla_contracts.Common.Tx.{TxAction}
use hos_tla_contracts.Examples.Fixtures.{alice, bob, call, key_of, root, tla}
use hos_tla_contracts.Host.{Host}
use hos_tla_contracts.Signer.Errors.{Answer}
use hos_tla_contracts.Signer.Freezing.{
  IsSelfFrozen, Run, Run-IsSelfFrozen, and_then_call, frozen_signs_nothing, requests_tx, start,
}
use hos_tla_contracts.Signer.Life.{SwapOutcome, owned_by, run-Evolves, swap_owner_checks}
use hos_tla_contracts.Signer.Payloads.{mainnet, tx_tag, verify_tagged}
use hos_tla_contracts.Signer.Replay.{RefusesReplay, accepted_once}
use hos_tla_contracts.Signer.System.{SignerMethod, carries_tx}
use hos_tla_contracts.Signer.Types.{
  ActiveSigner, SignerEntry, SignerLib, TxMessage, is_self_frozen, is_unfrozen, self_frozen,
  unfrozen,
}
use hos_tla_contracts.Signer.Wallets.{Evolves}
use hos_tla_contracts.Signer.Wording.{domain_fixes_tag}

abbrev used : ℕ → List ℕ → Bool
used n [] = false
used n (k ∷ w) = n == k || used n w

abbrev pub toy_lib : SignerLib (List ℕ)
toy_lib = record {
  borsh_freeze = λ msg. msg.signer_id;
  borsh_tx = λ msg. msg.signer_id;
  borsh_message = λ msg. msg.signer_id;
  parse_ed25519 = λ s. elim s [ [] ↦ none | c ∷ cs ↦ some (c ∷ cs) ];
  verify_sha256 = λ msg key proof. text_eq key proof;
  sha256 = λ s. s;
  fresh_nonces = λ timeout. [];
  commit = λ now n made timeout w. if used n w then none else some (n ∷ w);
}

used_through :
    (now n made timeout n' made' timeout' : ℕ) (w w' : List ℕ)
    → used n w ≡ true
    → toy_lib.commit now n' made' timeout' w ≡ some w'
    → used n w' ≡ true
used_through now n made timeout n' made' timeout' w w' before taken = ground arith

toy_law : RefusesReplay toy_lib
toy_law = record {
  spent = λ now n made timeout w. used n w ≡ true;
  commit_spends = λ now n made timeout w w' taken. ground arith;
  spent_later = λ now now' n made timeout w later before. before;
  spent_through = used_through;
  spent_refused = λ now n made timeout w before. ground arith;
}

abbrev pub wallet : Text
wallet = codes "shop.hos"

abbrev pub alice_entry : SignerEntry (List ℕ)
alice_entry = record {
  public_key = alice;
  mpc_public_key = key_of 1;
  nonces = [];
  freeze_nonces = [];
  last_signed_at = 3;
  frozen = unfrozen;
}

abbrev pub signer : ActiveSigner (List ℕ)
signer = record {
  admins = root ∷ [];
  minters = tla ∷ [];
  marketplace_authority = codes "market";
  recovery_authority = codes "recovery";
  mpc_signer = codes "mpc";
  timeout_secs = 60;
  signers = (wallet, alice_entry) ∷ [];
}

abbrev pay_bob : TxMessage
pay_bob = record {
  chain_id = mainnet;
  signer_id = wallet;
  nonce = 8;
  created_at_secs = 1;
  timeout_secs = 30;
  receiver_id = bob;
  actions = TxAction.transfer_near 5 ∷ [];
}

abbrev pays : SignerMethod
pays = SignerMethod.submit_signed_tx wallet pay_bob alice 1 []

-- The state that a call leaves, or the state before it if the call fails.
abbrev after_call : Answer (ActiveSigner (List ℕ)) → ActiveSigner (List ℕ)
after_call (ok s) = s
after_call (err e) = signer

abbrev paid : ActiveSigner (List ℕ)
paid = after_call (System.run toy_lib (call bob 1 10) pays signer)

pays_ok : System.run toy_lib (call bob 1 10) pays signer ≡ ok paid
unfolding System.run Signing.submit_signed_tx Signing.authorize verify_tagged lookup insert text_eq
    is_unfrozen
pays_ok = refl

accepted_once_example : is_ok (System.run toy_lib (call bob 1 10) pays paid) ≡ false
accepted_once_example =
    accepted_once toy_lib toy_law (call bob 1 10) (call bob 1 10) pays pays wallet 8 1 30 signer
      paid paid (carries_tx wallet pay_bob alice 1 []) (carries_tx wallet pay_bob alice 1 [])
      pays_ok start

abbrev frozen_entry : SignerEntry (List ℕ)
frozen_entry = record alice_entry { frozen = self_frozen }

abbrev frozen_signer : ActiveSigner (List ℕ)
frozen_signer = record signer { signers = (wallet, frozen_entry) ∷ [] }

frozen_found : lookup wallet frozen_signer.signers ≡ some frozen_entry
unfolding lookup text_eq
frozen_found = refl

still_unfrozen : is_unfrozen frozen_entry.frozen ≡ false
unfolding is_unfrozen
still_unfrozen = refl

frozen_signs_nothing_example : is_ok (System.run toy_lib (call bob 1 10) pays frozen_signer) ≡ false
frozen_signs_nothing_example =
    frozen_signs_nothing toy_lib (call bob 1 10) pays wallet frozen_entry frozen_signer frozen_found
      still_unfrozen (requests_tx wallet pay_bob alice 1 [])

thaw_refused :
    System.run toy_lib (call (codes "recovery") 0 20) (SignerMethod.unfreeze wallet) frozen_signer
    ≡ ok frozen_signer
unfolding System.run Owners.unfreeze is_self_frozen lookup text_eq
thaw_refused = refl

thaw_follows : Run toy_lib wallet frozen_signer 0 frozen_signer 20
thaw_follows =
    and_then_call start (call (codes "recovery") 0 20) (SignerMethod.unfreeze wallet) (omega arith)
      (elim [ ]) thaw_refused

Run-IsSelfFrozen_example : IsSelfFrozen toy_lib wallet alice 3 frozen_signer
Run-IsSelfFrozen_example =
    Run-IsSelfFrozen toy_lib thaw_follows (frozen_entry, frozen_found, refl, refl, refl)

abbrev swap_call : Host
swap_call = call (codes "market") 0 10

abbrev swap_result : ActiveSigner (List ℕ)
swap_result = record signer { signers = (wallet, owned_by toy_lib bob signer alice_entry) ∷ [] }

swap_ok :
    Owners.swap_owner toy_lib swap_call wallet bob (some alice) signer ≡ ok (swap_result, true)
unfolding Owners.swap_owner lookup insert text_eq is_unfrozen
swap_ok = refl

swap_owner_checks_example :
    SwapOutcome toy_lib swap_call wallet bob (some alice) signer swap_result true
swap_owner_checks_example =
    swap_owner_checks toy_lib swap_call wallet bob (some alice) signer swap_result true swap_ok

domain_fixes_tag_example : tx_tag ≡ tx_tag
domain_fixes_tag_example = domain_fixes_tag tx_tag tx_tag alice alice refl

signer_found : lookup wallet signer.signers ≡ some alice_entry
unfolding lookup text_eq
signer_found = refl

run-Evolves_example : Evolves toy_lib (call bob 1 10) pays wallet alice_entry signer paid
run-Evolves_example =
    run-Evolves toy_lib (call bob 1 10) pays wallet alice_entry signer paid pays_ok signer_found
