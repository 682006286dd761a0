-- ===== src/Processor.antt =====
-- The instruction handlers of program/src/processor, from their accounts and decoded arguments on.
-- `Loads` has the reads that they share; each other child has a group of handlers.
mod Loads
pub mod Reads
pub mod Manager
pub mod Deployer
pub mod StratDeployer
pub mod Fees
pub mod Rounds
pub mod Balance
pub mod Autodeploy
pub mod Automation
pub mod StratAutodeploy
pub mod Claims
pub mod MmDeploy
pub mod Tokens
pub mod FullAutodeploy
pub mod Sample
mod Bank
mod Tests
mod StratTests
mod ClaimTests
mod AutodeployTests
mod FullTests
mod TokenTests
mod DeployTests
unfoldable pub use Loads.*
