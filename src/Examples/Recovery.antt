-- ===== src/Examples/Recovery.antt =====
-- A recovery at concrete inputs, with a signature check that accepts every signature.
use hos_tla_contracts.Recovery.System
use hos_tla_contracts.Recovery.Opening
use hos_tla_contracts.Recovery.Deciding
use hos_tla_contracts.Base.{
  List, Text, [], codes, err, false, insert, is_ok, length, lookup, none, ok, refl, some, text_eq,
  true, ℕ, ◌∷◌, ◌≡◌, ◌≤◌,
}
use hos_tla_contracts.Examples.Fixtures.{alice, bob, call, root}
use hos_tla_contracts.Host.{CurveType, Host, PublicKey, key_eq}
use hos_tla_contracts.Recovery.Attestations.{requested_once}
use hos_tla_contracts.Recovery.Errors.{Outcome}
use hos_tla_contracts.Recovery.Proof.{contains, verify, verify_quorum}
use hos_tla_contracts.Recovery.Quorum.{
  Decides, Signers, submit_verdict-Decides, verify_quorum_sound,
}
use hos_tla_contracts.Recovery.System.{at_once}
use hos_tla_contracts.Recovery.Types.{
  Account, MpcRecovery, RecoveryLib, WatcherSignature, idle, native,
}

abbrev pub lenient : RecoveryLib
lenient = record {
  is_weak = λ key. some false;
  ed25519_verify = λ signature message key. true;
  sha256 = λ s. s;
}

abbrev long_key : ℕ → PublicKey
long_key n = record {
  curve_type = CurveType.ed25519;
  key_data = n ∷ codes "1234567890123456789012345678901";
}

abbrev long_signature : Text
long_signature = codes "0123456789012345678901234567890123456789012345678901234567890123"

abbrev native_account : Account
native_account = record {
  policy = record {
    target = native (long_key 1);
    attestation_key = long_key 2;
    timelock_secs = 60;
  };
  round = 4;
  phase = idle;
}

abbrev pub recovery : MpcRecovery
recovery = record {
  owner = root;
  signer = codes "mpc";
  transfer_authority = codes "market";
  watchers = long_key 5 ∷ long_key 6 ∷ [];
  threshold = 2;
  accounts = (alice, native_account) ∷ [];
  round_floor = [];
}

abbrev left_state : Outcome MpcRecovery → MpcRecovery
left_state (ok s) = s
left_state (err e) = recovery

abbrev requesting : MpcRecovery
requesting =
    left_state (
      Opening.request_recovery lenient (call bob 0 10) alice (long_key 7) 4 long_signature recovery)

request_ok :
    Opening.request_recovery lenient (call bob 0 10) alice (long_key 7) 4 long_signature recovery
    ≡ ok requesting
unfolding Opening.request_recovery lookup insert text_eq verify
request_ok = refl

requested_once_example :
    is_ok (
      Opening.request_recovery lenient
        (call bob 0 90)
        alice
        (long_key 8)
        4
        long_signature
        requesting)
    ≡ false
requested_once_example =
    requested_once lenient (call bob 0 10) (call bob 0 90) alice (long_key 7) (long_key 8) 4
      long_signature long_signature recovery requesting requesting request_ok at_once

abbrev votes : List WatcherSignature
votes =
    record { public_key = long_key 5; signature = long_signature }
    ∷ record { public_key = long_key 6; signature = long_signature }
    ∷ []

quorum_met : verify_quorum lenient alice votes recovery.watchers 2 ≡ true
unfolding verify_quorum contains verify key_eq text_eq
quorum_met = refl

verify_quorum_sound_example :
    (keys : List PublicKey) × Signers lenient alice votes recovery.watchers keys × (2 ≤ length keys)
verify_quorum_sound_example = verify_quorum_sound lenient alice votes recovery.watchers 2 quorum_met

abbrev verdict_call : Host
verdict_call = call bob 0 60000000010

abbrev decided : MpcRecovery
decided =
    left_state
      (System.state_left (Deciding.submit_verdict lenient verdict_call alice true votes requesting))

verdict_ok :
    Deciding.submit_verdict lenient verdict_call alice true votes requesting ≡ ok (decided, none)
unfolding Deciding.submit_verdict Deciding.as_requested Deciding.sized_signatures Deciding.approve
    Opening.request_recovery lookup insert text_eq verify verify_quorum contains key_eq
verdict_ok = refl

submit_verdict-Decides_example : Decides lenient verdict_call alice true votes requesting decided
submit_verdict-Decides_example =
    submit_verdict-Decides lenient verdict_call alice true votes requesting decided none verdict_ok
