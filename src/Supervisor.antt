-- ===== src/Supervisor.antt =====
-- crates/hof-core/src/actors/download_supervisor.rs: the actor that limits concurrent downloads,
-- dispatches them and schedules retries.
pub mod State
pub mod Backoff
pub mod Dispatch
pub mod Failure
pub mod PendingSweep
pub mod Handlers
pub mod Messages
pub mod SweepRule
pub mod Kept
pub mod Invariant
pub mod Outage
pub mod Replies
pub mod Admission
pub mod Spawned
pub mod Closed
pub mod Retry
pub mod FailureRow
pub mod Routes
pub mod Complete
pub mod Tasks
pub mod Resize
pub mod Cancel
mod Examples
