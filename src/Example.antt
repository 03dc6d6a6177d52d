-- ===== src/Example.antt =====
-- contracts/example/src/lib.rs: the greeting and counter contract.
mod Defs
pub mod Counter
mod Suite
unfoldable pub use Defs.*
