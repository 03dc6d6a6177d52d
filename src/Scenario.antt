-- ===== src/Scenario.antt =====
-- A concrete network for the tests and witnesses, after contracts/router/src/fixture.rs: token
-- contracts with plain ledgers, one test adapter, and a router that knows it as "test".
mod Network
mod TwoHops
mod Facts
mod RouterWitnesses
mod DonationWitnesses
mod OtherWitnesses
mod CallWitness
mod LifetimeWitness
mod SolvencyWitness
mod CompositionWitnesses
mod FixtureWitness
mod ExactnessWitnesses
mod GivingWitness
mod NonCustodial
unfoldable pub use Network.*
