-- ===== src/Examples/Tx.antt =====
-- Transactions and their bytes at concrete inputs.
use hos_tla_contracts.Base.{[], arith, codes, refl, ◌*◌, ◌∷◌, ◌≡◌}
use hos_tla_contracts.Common.Tx.{TxAction}
use hos_tla_contracts.Common.Tx.Decoding.{FitsLayout, Transaction, bytes_of-injective}
use hos_tla_contracts.Examples.Fixtures.{alice, bob}
use hos_tla_contracts.Host.{CurveType}

abbrev ping : Transaction
ping = record {
  signer = alice;
  public_key = record {
    curve_type = CurveType.secp256k1;
    key_data = codes "0123456789012345678901234567890123456789012345678901234567890123";
  };
  nonce = 42;
  receiver = bob;
  block_hash = codes "01234567890123456789012345678901";
  actions = TxAction.transfer_near 1 ∷ TxAction.function_call (codes "ping") [] 5 0 ∷ [];
}

ping-FitsLayout : FitsLayout ping
ping-FitsLayout = record {
  signer_fits = omega arith;
  key_fits = refl;
  nonce_fits = omega arith;
  receiver_fits = omega arith;
  hash_fits = refl;
  count_fits = omega arith;
  actions_fit = (omega arith, ((omega arith, omega arith, omega arith, omega arith), tt));
}

bytes_of-injective_example : ping ≡ record ping { nonce = 6 * 7 }
bytes_of-injective_example =
    bytes_of-injective ping (record ping { nonce = 6 * 7 }) ping-FitsLayout ping-FitsLayout refl
