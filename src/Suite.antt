-- ===== src/Suite.antt =====
-- The tests that stand beside the contracts, as statements, and that they hold:
-- contracts/router/src/test.rs, test_aggregation.rs, test_events.rs and test_security.rs, and
-- contracts/donations/src/test.rs.
mod Bench
mod RouterLifecycle
mod RouterSwaps
mod RouterChecks
mod Aggregation
mod Delivery
mod Events
mod Security
mod DonationBench
mod Giving
