-- ===== src/Soroban.antt =====
-- The contract host: how functions run, and what they may ask of their surroundings.
mod Execution
mod Host
pub mod Sep41
pub mod Payments
unfoldable pub use Execution.*
unfoldable pub use Host.*
