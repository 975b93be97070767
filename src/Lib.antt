-- ===== src/Lib.antt =====
-- House of Stake TLA contracts: a model of the NEAR contracts and the theorems about it.
--
-- The program rents sub-accounts under top-level accounts (TLAs). `contracts/tla-registry` keeps
-- the TLAs, the rentals, the resale market and the refunds owed; the other contracts mint accounts,
-- hold their operating keys and recover them. Contracts talk by promises: a call returns the calls
-- that it wants made and the callback that runs when they have ended.
--
-- Files. `Base` has text as bytes, maps, sets, results and machine words. `Host` is what a contract
-- reads of the NEAR host (caller, deposit, time, promise results) and the functions of near-sdk
-- that it uses. `Common/Keys` is crates/hos-common/src/lib.rs. `Registry` is contracts/tla-
-- registry/src, one module for each part: Types, Names, Fees and Errors for types.rs, fees.rs and
-- error.rs; State and Admin for lib.rs and admin.rs; Rental, Renewal and Minting for rental.rs and
-- callbacks.rs; Sales, Listings and Buying for marketplace.rs; Reclaim, AssetGate, Mother and
-- Business for the files of those names; Views for views.rs and the read-only methods of the other
-- files. The proofs stand in the other modules below `Registry`, named for what they prove;
-- `Examples` runs the model on concrete states. `Common/Tx` is crates/hos-common/src/tx.rs; the
-- decoder below it belongs to a proof. `Signer` is contracts/active-signer/src: Types for state.rs,
-- Payloads for nep413.rs and the domains, Owners and Signing for the calls of lib.rs, System for
-- the calls as one relation. `Recovery` is contracts/mpc-recovery/src: Types for state.rs, Proof
-- for proof.rs and tx.rs, Opening and Deciding for the calls and callbacks of lib.rs, System for
-- them as one relation. The recovery's copies of `to_hex` and `write_str` are the same code as
-- those of hos-common. `Manager` is contracts/tla-manager/src and `Extension` is contracts/hos-
-- extension/src. `Network` puts the contracts together: it performs the calls that one contract
-- asks for in the others and runs the callbacks with their results. Mints and Rentals are the mint
-- of a rental (registry, manager, signer), Transfers and Atomicity a sale (registry, extension,
-- signer, recovery), Sweeps a token sweep (registry, extension), Recoveries and Rescue a recovery
-- (recovery, signer), Parking the end of a reclaim (registry, extension, signer); the other modules
-- there are proofs.
--
-- Correspondence. A method is a function from the host's context, its arguments and the state to
-- the new state, and the promise it returns. `Err(_)` and a panic are rolled back by the host, so
-- an error carries no state. A callback `on_x` of the registry is the function `x`; a callback is
-- given the promise's result, chosen by the environment, and `none` is a `PromiseError`. A map is
-- an association list keyed by the bytes of the key, and a set is the list of its elements. u128,
-- u64 and u32 sums saturate as in the source; casts to a byte wrap. Loops recur on lists. A chain
-- of calls in Network/Mints or Network/Sweeps is run on fuel, one unit for each call: three are
-- enough, since no mint and no sweep makes more.
--
-- The replay window, the parsing of keys, signature checks, SHA-256 and the borsh of messages are
-- of other crates: they are fields of `SignerLib` and `RecoveryLib`, which the functions take. A
-- checked sum that overflows is an error.
--
-- Not modelled: events (log lines that no method reads), gas amounts, storage keys, JSON and borsh
-- decoding of arguments, the getters of a single field, and the contracts under dev-contracts,
-- which stand in for a token and the MPC network in the tests. The order in which a set's iterator
-- runs after a removal is the library's; here it is the order of insertion.
mod Base
pub mod Host
pub mod Common
pub mod Registry
pub mod Signer
pub mod Recovery
pub mod Manager
pub mod Extension
pub mod Network
mod Examples
