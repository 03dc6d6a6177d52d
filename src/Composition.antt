-- ===== src/Composition.antt =====
-- Contracts together, over any token contracts: the router (contracts/router/src/lib.rs) with the test
-- adapter (contracts/test-adapter/src/lib.rs) plugged in, and the router before a donation
-- (contracts/donations/src/lib.rs).
mod Wiring
unfoldable pub use Wiring.*
pub mod Confined
pub mod Solvency
pub mod Quote
pub mod Rounding
pub mod Service
pub mod Stock
pub mod Fulfilment
pub mod Giving
