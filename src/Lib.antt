-- ===== src/Lib.antt =====
-- StellarIQ contracts: the Soroban contracts of this repository, and what they guarantee.
--
-- The program. `interfaces/src/lib.rs` is the crate that the contracts share: route steps, error
-- codes, events, the adapter interface and checked arithmetic. `contracts/router/src/lib.rs` is
-- the swap router: an admin keeps a registry from protocol names to adapter contracts, and `swap`
-- pulls a trader's input, sends it through up to five hops, each an adapter call whose delivery
-- it measures as a balance difference, and leaves the output with the trader and a record in the
-- events. `contracts/test-adapter/src/lib.rs` is an adapter with settable prices, failures and
-- false reports. `contracts/donations/src/lib.rs` keeps charity campaigns: a donation goes from
-- the donor straight to the beneficiary's account and leaves a receipt.
-- `contracts/example/src/lib.rs` is a greeting and a counter.
--
-- How it is modelled. A contract function is a function from the contract's storage to an outcome
-- (a value, a contract error, or a host trap) and a storage (`Soroban/Execution`). A storage is a
-- record with an entry for each storage key, with the events published and the TTL extensions
-- requested so far, and with the state of all other contracts, of any type. `invoke` is the
-- host's top-level invocation, which rolls a call back unless it returns a value.
--
-- The files:
-- - `Prelude`: tests, lists, integers with the `i128` range, maps, and the names passed on from
--   the libraries.
-- - `Soroban`: execution and the host. Authorizations, ledger time and the uploaded code are an
--   argument (`Env`); the token contracts (`Tokens`) are a parameter of what uses them, `Sep41`
--   says what they keep to, and `Payments` what one payment does.
-- - `Interfaces`: `interfaces/src/lib.rs`; `Interfaces/Rates` is about its arithmetic,
--   `Interfaces/Codes` about its error codes, and `Interfaces/Suite` states its unit tests.
-- - `Router`: `contracts/router/src/lib.rs`. `Router/Storage`, `Router/Admin` and `Router/Swap`
--   are the code, function by function; `swap` is `check_terms`, `check_route` and `settlement`
--   in a row, and its two loops run on the number of rounds left. `Router/Spec` describes routes
--   and records apart from the loops. `Loops`, `Hops`, `Preflight`, `Settlement`, `Calls` and
--   `Outcomes` lead to how `swap` ends; `Rounds`, `Funds`, `Custody`, `Safety` and `Bystanders`
--   to whose balances it changes; `Runs`, `Completion`, `Necessity` and `Exactness` to when it
--   returns, `Failures`, `Breakdown` and `Diagnosis` to when it fails; `Tracking`, `Metering`,
--   `MeteredChecks`, `FirstCall`, `CallCount`, `BeforeCalls` and `LoopCalls` lead to `CallBound`,
--   on how many adapters it calls; `Entries`, `Governance`, `Log`, `History`, `Registry` and
--   `Lifetime` are about all entry points, and `Observer` and `Replay` about what the events
--   tell.
-- - `TestAdapter`: `contracts/test-adapter/src/lib.rs`, its prices (`Pricing`) and its admin
--   (`Authority`).
-- - `Composition`: contracts together. In `Wiring` the test adapter is plugged into the router;
--   `Confined` is about whose funds move, `Quote` about what a swap yields, `Rounding` about whom
--   rounding favours; `Service` and `Stock` lead to `Fulfilment`, on when a swap succeeds.
--   `Giving` is about a swap followed by a donation, and `Solvency` about the router's balances
--   over any calls of router and adapter and any payments.
-- - `Fixture`: `contracts/router/src/fixture.rs`, with its address generator and the tokens'
--   minting as parameters; `Setup`, `Amounts` and `SingleHop` say what it leaves and that it
--   trades.
-- - `Donations`: `contracts/donations/src/lib.rs`. `Types` and `Defs` are the code, and `Codes`
--   is about its error codes; `Admission`, `Counting`, `Donating`, `Results`, `Exactness` and
--   `Campaigns` say how the entry points end, and `Funds` where the money goes; `Steps` is the
--   step relation of all entry points, and `Totals`, `Donors`, `Books`, `Reachable`, `Sizes`,
--   `Permanence` and `Lifetime` are about every storage that they can reach; `Observer` and
--   `Replay` rebuild campaigns and receipts from the events.
-- - `Example`: `contracts/example/src/lib.rs`; `Example/Suite` states its unit tests.
-- - `Scenario`: a concrete network after `contracts/router/src/fixture.rs`, with examples.
-- - `Suite`: every test of `contracts/router/src/test.rs`, `test_aggregation.rs`,
--   `test_events.rs` and `test_security.rs`, and of `contracts/donations/src/test.rs`, as a
--   statement under the test's name, on the network of `Scenario`. `Bench` and `DonationBench`
--   are what the tests share: `a ▹ b` goes on with `b` unless `a` has panicked.
--
-- Bounds. An `i128` is an integer with its range checked where the source checks it; a `u32` or
-- `u64` is a natural number, with the source's checked or trapping additions written out against
-- 2^32 and 2^64 (the build sets `overflow-checks`). No fuel is needed: every loop runs on a
-- number of rounds that is the length of the path, which is at most five.
--
-- Parameters. Token contracts and adapters are arbitrary functions on the state of the other
-- contracts. The theorems on balances take as hypotheses that tokens keep to SEP-41 (`IsLedger`)
-- and that adapters spend only their own funds (`IsConfined`); `Composition/Confined` shows the
-- second for the test adapter, and `Scenario/Facts` the first for plain ledgers.
-- `Composition/Solvency` also takes that tokens refuse negative amounts, as SEP-41 asks; its
-- witness shows it of the plain ledgers. Where a swap is to succeed, tokens also let a holder pay
-- what it has (`IsPaying`), which `Scenario/Facts` shows of the same ledgers. An adapter may not
-- call back into the router within a swap: Soroban's host refuses reentrant calls.
--
-- Not modelled. What a router does under code that an `upgrade` has installed: `upgrade` records
-- the new code and publishes its event, and `Reach`, `Life` and `Course`, on which the theorems
-- on several invocations stand, let an entry point run only while the code is still the first
-- one, so that an `upgrade` can only be the last of them. Also not modelled: the expiry of
-- entries whose life is not extended, of which only the requests are kept; fees; scripts,
-- deployments and documents.
pub mod Prelude
pub mod Soroban
pub mod Interfaces
pub mod Router
pub mod TestAdapter
pub mod Donations
pub mod Composition
pub mod Fixture
pub mod Example
pub mod Scenario
pub mod Suite
