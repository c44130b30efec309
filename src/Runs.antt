-- ===== src/Runs.antt =====
-- src/ai_agent/runs: durable Runs, their jobs and the workers' leases.
pub mod Rows
pub mod Retry
pub mod Leases
pub mod Claims
pub mod Jobs
pub mod Answers
pub mod Durable
pub mod Recovery
pub mod Lifecycle
pub mod Ended
pub mod Revoked
pub mod Held
pub mod Fencing
pub mod Order
pub mod Sweep
pub mod Exclusive
