-- ===== src/TestAdapter.antt =====
-- contracts/test-adapter/src/lib.rs: the adapter with fixed-point pricing of the router's tests.
mod Defs
pub mod Pricing
pub mod Authority
unfoldable pub use Defs.*
