-- ===== src/Interfaces.antt =====
-- interfaces/src/lib.rs, the crate that the contracts share.
mod Errors
mod Types
mod Math
pub mod Rates
pub mod Codes
mod Suite
unfoldable pub use Errors.*
unfoldable pub use Types.*
unfoldable pub use Math.*
