-- ===== src/Fixture.antt =====
-- contracts/router/src/fixture.rs: the network of the router's tests, of one router, one test adapter,
-- three tokens and two pools.
mod Defs
unfoldable pub use Defs.*
pub mod Setup
pub mod Amounts
pub mod SingleHop
