-- ===== src/MmDeploy.antt =====
-- process_mm_deploy.rs of program/src/processor: the arithmetic of the strategies. The handler around
-- it, `process_mm_deploy`, is not modelled.
pub mod Sqrt
pub mod Profit
pub mod Allocation
pub mod Plan
pub mod Calculate
pub mod Percentage
pub mod Batch
mod Tests
