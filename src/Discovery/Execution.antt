-- ===== src/Discovery/Execution.antt =====
-- backend/app/discovery/execution.py: the execution of a discovery job.
pub mod Policy
pub mod Failures
pub mod Devices
pub mod Calls
pub mod Single
pub mod Multi
pub mod Service
mod Examples
