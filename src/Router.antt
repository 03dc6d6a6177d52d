-- ===== src/Router.antt =====
-- contracts/router/src/lib.rs, the swap router.
mod Storage
mod Admin
mod Swap
pub mod Spec
pub mod Loops
pub mod Hops
pub mod Preflight
pub mod Settlement
pub mod Calls
pub mod Outcomes
pub mod Funds
pub mod Rounds
pub mod Custody
pub mod Safety
pub mod Entries
pub mod Governance
pub mod Log
pub mod History
pub mod Observer
pub mod Replay
pub mod Registry
pub mod Runs
pub mod Completion
pub mod Necessity
pub mod Failures
pub mod Breakdown
pub mod Diagnosis
pub mod Exactness
pub mod Tracking
pub mod Metering
pub mod MeteredChecks
pub mod FirstCall
pub mod CallCount
pub mod BeforeCalls
pub mod LoopCalls
pub mod CallBound
pub mod Lifetime
pub mod Bystanders
unfoldable pub use Storage.*
unfoldable pub use Admin.*
unfoldable pub use Swap.*
