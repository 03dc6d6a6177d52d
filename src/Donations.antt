-- ===== src/Donations.antt =====
-- contracts/donations/src/lib.rs: charity campaigns, direct donations and receipts.
mod Types
mod Defs
pub mod Entries
pub mod Counting
pub mod Admission
pub mod Donating
pub mod Results
pub mod Codes
pub mod Exactness
pub mod Funds
pub mod Campaigns
pub mod Steps
pub mod Sizes
pub mod Totals
pub mod Donors
pub mod Books
pub mod Reachable
pub mod Permanence
pub mod Lifetime
pub mod Observer
pub mod Replay
unfoldable pub use Types.*
unfoldable pub use Defs.*
